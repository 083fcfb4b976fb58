-- ===== src/Model/SqlQuery/Row/Fill.antt =====
-- `RowBuilder` of src/model/sql_query/row.rs turns the columns of a record batch into its rows.
use incubator_horaedb_client.Prelude.{
  ℕ, zero, suc, ◌≡◌, ◌∙◌, refl, sym, ap, subst, Option, none, some, List, [], ◌∷◌, ◌++◌, map,
  length, length-append, replicate, length-replicate, set, set-append, arith, All,
}
use mathlib.Core.List.{append_assoc}
use incubator_horaedb_client.Model.Value.{Value}
use incubator_horaedb_client.Model.SqlQuery.Row.{
  ArrowType, ArrayRef, RecordBatch, Filled, filled, fill_rows, fill_column,
  fill_column_in_row_batch, fill_columns, with_arrow_record_batch,
}
use incubator_horaedb_client.Model.SqlQuery.Row.Cells.{
  decoded, cells, HasCells, zip_cons, rows_of, glue, snoc,
}

set_next :
    (b : List Value) (v : Value) (rest : List Value) (idx : ℕ)
    → length b ≡ idx
    → set (b ++ Value.null ∷ rest) idx v ≡ (b ++ v ∷ []) ++ rest
set_next b v rest idx h =
    rw (← h) (set-append b Value.null rest v ∙ sym (append_assoc b (v ∷ []) rest))

-- The columns before `idx` are filled with `bs`.
abbrev pub IsFilledTo : ℕ → List (List Value) → Type 0
IsFilledTo idx bs = All (λ b. length b ≡ idx) bs

fill_rows-glue :
    {A : Type 0} (f : A → Value) (idx : ℕ) (vs : List A) (bs : List (List Value))
    (rest : List Value)
    → length vs ≡ length bs
    → IsFilledTo idx bs
    → fill_rows f idx vs (glue bs (replicate (length bs) (Value.null ∷ rest)))
      ≡ some (glue (snoc bs (map f vs)) (replicate (length bs) rest))
unfolding fill_rows
fill_rows-glue f idx [] [] rest l h = refl
fill_rows-glue f idx (v ∷ vs) [] rest l h = refl
fill_rows-glue f idx [] (b ∷ bs) rest l h = absurd (omega arith)
fill_rows-glue f idx (v ∷ vs) (b ∷ bs) rest l (here, h) = ground (
  arith,
  fill_rows-glue f idx vs bs rest (omega arith) h,
  set_next b (f v) rest idx here,
  length-append b (Value.null ∷ rest),
  here,
)

pub IsFilledTo-snoc :
    (idx : ℕ) (bs : List (List Value)) (col : List Value)
    → IsFilledTo idx bs
    → IsFilledTo (suc idx) (snoc bs col)
IsFilledTo-snoc idx [] col h = tt
IsFilledTo-snoc idx (b ∷ bs) [] h = tt
IsFilledTo-snoc idx (b ∷ bs) (v ∷ col) (here, h) =
    (omega (arith, length-append b (v ∷ []), here), IsFilledTo-snoc idx bs col h)

pub length-snoc :
    (bs : List (List Value)) (col : List Value)
    → length col ≡ length bs
    → length (snoc bs col) ≡ length bs
length-snoc [] col l = refl
length-snoc (b ∷ bs) [] l = absurd (omega arith)
length-snoc (b ∷ bs) (v ∷ col) l = ap suc (length-snoc bs col (omega arith))

glue-snoc :
    (bs : List (List Value)) (col : List Value) (rows : List (List Value))
    → glue (snoc bs col) rows ≡ glue bs (zip_cons col rows)
glue-snoc [] col rows = refl
glue-snoc (b ∷ bs) [] rows = refl
glue-snoc (b ∷ bs) (v ∷ col) [] = refl
glue-snoc (b ∷ bs) (v ∷ col) (row ∷ rows) =
    ground (arith, glue-snoc bs col rows, append_assoc b (v ∷ []) row)

zip_cons-replicate :
    (n : ℕ) (v : Value) (row : List Value)
    → zip_cons (replicate n v) (replicate n row) ≡ replicate n (v ∷ row)
zip_cons-replicate zero v row = refl
zip_cons-replicate (suc n) v row = ap (λ r. (v ∷ row) ∷ r) (zip_cons-replicate n v row)

pub length-map : {A B : Type 0} (f : A → B) (xs : List A) → length (map f xs) ≡ length xs
length-map f [] = refl
length-map f (x ∷ xs) = ap suc (length-map f xs)

module _ (bs : List (List Value)) (idx : ℕ) (h : IsFilledTo idx bs) (rest : List Value) where
  abbrev pub before : List (List Value)
  before = glue bs (replicate (length bs) (Value.null ∷ rest))

  abbrev pub after : List Value → Filled
  after col = filled (glue (snoc bs col) (replicate (length bs) rest))

  fill_column-glue :
      {A : Type 0} (o : Option (List A)) (f : A → Value) (col : List Value)
      → decoded f o ≡ some col
      → length col ≡ length bs
      → fill_column o f idx before ≡ after col
  fill_column-glue none f col e l = cc
  fill_column-glue (some vs) f col e l =
      ground
        (arith, fill_rows-glue f idx vs bs rest (sym (length-map f vs) ∙ ap length (cc e) ∙ l) h)

  -- Any array whose values are known is filled in.
  pub column-glue :
      (a : ArrayRef) (ty : ArrowType) (col : List Value)
      → cells (length bs) a ty ≡ some col
      → length col ≡ length bs
      → fill_column_in_row_batch before idx a ty ≡ after col
  unfolding fill_column_in_row_batch
  column-glue a ArrowType.null col e l =
      ap filled (
        ap (glue bs) (sym (zip_cons-replicate (length bs) Value.null rest))
        ∙ sym (glue-snoc bs (replicate (length bs) Value.null) (replicate (length bs) rest)))
      ∙ ap after (cc e)
  column-glue a ArrowType.boolean col e l = fill_column-glue a.boolean_array Value.boolean col e l
  column-glue a ArrowType.int8 col e l = fill_column-glue a.int8_array Value.int8 col e l
  column-glue a ArrowType.int16 col e l = fill_column-glue a.int16_array Value.int16 col e l
  column-glue a ArrowType.int32 col e l = fill_column-glue a.int32_array Value.int32 col e l
  column-glue a ArrowType.int64 col e l = fill_column-glue a.int64_array Value.int64 col e l
  column-glue a ArrowType.uint8 col e l = fill_column-glue a.uint8_array Value.uint8 col e l
  column-glue a ArrowType.uint16 col e l = fill_column-glue a.uint16_array Value.uint16 col e l
  column-glue a ArrowType.uint32 col e l = fill_column-glue a.uint32_array Value.uint32 col e l
  column-glue a ArrowType.uint64 col e l = fill_column-glue a.uint64_array Value.uint64 col e l
  column-glue a ArrowType.float32 col e l = fill_column-glue a.float32_array Value.float col e l
  column-glue a ArrowType.float64 col e l = fill_column-glue a.float64_array Value.double col e l
  column-glue a ArrowType.utf8 col e l = fill_column-glue a.string_array Value.string col e l
  column-glue a ArrowType.large_utf8 col e l = fill_column-glue a.string_array Value.string col e l
  column-glue a ArrowType.binary col e l = fill_column-glue a.binary_array Value.varbinary col e l
  column-glue a ArrowType.large_binary col e l =
      fill_column-glue a.binary_array Value.varbinary col e l
  column-glue a ArrowType.timestamp_millisecond col e l =
      fill_column-glue a.timestamp_millisecond_array Value.timestamp col e l
  column-glue a ArrowType.time32_millisecond col e l =
      fill_column-glue a.time32_millisecond_array Value.timestamp col e l
  column-glue a (ArrowType.dictionary ArrowType.int32 ArrowType.utf8) col e l =
      fill_column-glue a.string_dictionary_array Value.string col e l
  column-glue a _ col e l = cc

fill_columns-glue :
    (columns : List ArrayRef) (cols : List (List Value)) (idx : ℕ) (bs : List (List Value))
    → IsFilledTo idx bs
    → HasCells (length bs) columns cols
    → fill_columns idx columns
        (glue bs (replicate (length bs) (replicate (length columns) Value.null)))
      ≡ filled (glue bs (rows_of (length bs) cols))
unfolding fill_columns
fill_columns-glue [] [] idx bs h k = refl
fill_columns-glue [] (col ∷ cols) idx bs h k = absurd k
fill_columns-glue (a ∷ columns) [] idx bs h k = absurd k
fill_columns-glue (a ∷ columns) (col ∷ cols) idx bs h (e, l, k) =
    let same = length-snoc bs col l in
    rw
      (
        column-glue bs idx h (replicate (length columns) Value.null) a a.data_type col e l,
        fill_columns,
      )
      (subst
          (λ n.
            fill_columns (suc idx) columns
              (glue (snoc bs col) (replicate n (replicate (length columns) Value.null)))
            ≡ filled (glue (snoc bs col) (rows_of n cols)))
          same
          (fill_columns-glue columns cols (suc idx) (snoc bs col) (IsFilledTo-snoc idx bs col h)
            (subst (λ n. HasCells n columns cols) (sym same) k))
        ∙ ap filled (glue-snoc bs col (rows_of (length bs) cols)))

length-zip_cons :
    (n : ℕ) (col : List Value) (rows : List (List Value))
    → length col ≡ n
    → length rows ≡ n
    → length (zip_cons col rows) ≡ n
length-zip_cons n [] rows l k = l
length-zip_cons zero (v ∷ col) [] l k = k
length-zip_cons (suc n) (v ∷ col) [] l k = absurd (omega arith)
length-zip_cons zero (v ∷ col) (row ∷ rows) l k = absurd (omega arith)
length-zip_cons (suc n) (v ∷ col) (row ∷ rows) l k =
    ap suc (length-zip_cons n col rows (omega arith) (omega arith))

length-rows_of :
    (n : ℕ) (columns : List ArrayRef) (cols : List (List Value))
    → HasCells n columns cols
    → length (rows_of n cols) ≡ n
length-rows_of n [] [] k = length-replicate n []
length-rows_of n [] (col ∷ cols) k = absurd k
length-rows_of n (a ∷ columns) [] k = absurd k
length-rows_of n (a ∷ columns) (col ∷ cols) (e, l, k) =
    length-zip_cons n col (rows_of n cols) l (length-rows_of n columns cols k)

pub glue-empty :
    (n : ℕ) (rows : List (List Value)) → length rows ≡ n → glue (replicate n []) rows ≡ rows
glue-empty zero [] l = refl
glue-empty zero (row ∷ rows) l = absurd (omega arith)
glue-empty (suc n) [] l = absurd (omega arith)
glue-empty (suc n) (row ∷ rows) l = ap (λ r. row ∷ r) (glue-empty n rows (omega arith))

pub IsFilledTo-replicate : (n : ℕ) → IsFilledTo 0 (replicate n [])
IsFilledTo-replicate zero = tt
IsFilledTo-replicate (suc n) = (refl, IsFilledTo-replicate n)

-- If every column of a record batch has a supported type that is its array's, and as many values as
-- the batch has rows, then filling does not fail and gives the rows of the table of these columns.
pub with_arrow_record_batch-rows_of :
    (batch : RecordBatch) (cols : List (List Value))
    → HasCells batch.num_rows batch.columns cols
    → with_arrow_record_batch batch ≡ filled (rows_of batch.num_rows cols)
unfolding with_arrow_record_batch
with_arrow_record_batch-rows_of batch cols k =
    let n = batch.num_rows in
    let nulls = replicate (length batch.columns) Value.null in
    let same : length {A = List Value} (replicate n []) ≡ n = length-replicate n [] in
    ap (fill_columns 0 batch.columns)
      (sym (glue-empty n (replicate n nulls) (length-replicate n nulls)))
    ∙ subst
        (λ m.
          fill_columns 0 batch.columns (glue (replicate n []) (replicate m nulls))
          ≡ filled (glue (replicate n []) (rows_of m cols)))
        same
        (fill_columns-glue batch.columns cols 0 (replicate n []) (IsFilledTo-replicate n)
          (subst (λ m. HasCells m batch.columns cols) (sym same) k))
    ∙ ap filled (glue-empty n (rows_of n cols) (length-rows_of n batch.columns cols k))
