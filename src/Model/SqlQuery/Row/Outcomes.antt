-- ===== src/Model/SqlQuery/Row/Outcomes.antt =====
-- What `RowBuilder` of src/model/sql_query/row.rs does with the columns of a record batch: they are
-- filled in, refused, or the cause of a panic.
use incubator_horaedb_client.Prelude.{
  ℕ, suc, ◌≡◌, ◌∙◌, refl, sym, ap, subst, Text, Option, some, List, [], ◌∷◌, length,
  length-replicate, replicate, map, arith,
}
use incubator_horaedb_client.Model.Value.{Value}
use incubator_horaedb_client.Model.SqlQuery.Row.{
  ArrowType, ArrayRef, RecordBatch, Filled, unsupported_type, panicked, fill_column_in_row_batch,
  fill_columns, with_arrow_record_batch,
}
use incubator_horaedb_client.Model.SqlQuery.Row.Cells.{decoded, cells, HasCells, glue, snoc}
use incubator_horaedb_client.Model.SqlQuery.Row.Fill.{
  IsFilledTo, IsFilledTo-snoc, IsFilledTo-replicate, length-snoc, length-map, glue-empty,
  column-glue,
}
use incubator_horaedb_client.Model.SqlQuery.Row.Support.{
  Support, supported, large, other_type, support_of, else_support, first_support, HasSlots, IsArray,
  AreArrays,
}

-- What filling in the column does.
abbrev Does : ℕ → ArrayRef → ArrowType → Support → Type 0
Does n a ty supported = (col : List Value) × (cells n a ty ≡ some col) × (length col ≡ n)
Does n a ty large =
    (rows : List (List Value)) (idx : ℕ) → fill_column_in_row_batch rows idx a ty ≡ panicked
Does n a ty other_type =
    (rows : List (List Value)) (idx : ℕ)
    → (e : Text) × (fill_column_in_row_batch rows idx a ty ≡ unsupported_type e)

slots-decoded :
    {A : Type 0} (n : ℕ) (f : A → Value) (array : Option (List A))
    → HasSlots n array
    → (col : List Value) × (decoded f array ≡ some col) × (length col ≡ n)
slots-decoded n f array (xs, is, l) = (map f xs, ap (decoded f) is, length-map f xs ∙ l)

column-Does : (n : ℕ) (a : ArrayRef) (ty : ArrowType) → IsArray n a ty → Does n a ty (support_of ty)
unfolding fill_column_in_row_batch
column-Does n a ArrowType.null h = (replicate n Value.null, refl, length-replicate n Value.null)
column-Does n a ArrowType.boolean h = slots-decoded n Value.boolean a.boolean_array h
column-Does n a ArrowType.int8 h = slots-decoded n Value.int8 a.int8_array h
column-Does n a ArrowType.int16 h = slots-decoded n Value.int16 a.int16_array h
column-Does n a ArrowType.int32 h = slots-decoded n Value.int32 a.int32_array h
column-Does n a ArrowType.int64 h = slots-decoded n Value.int64 a.int64_array h
column-Does n a ArrowType.uint8 h = slots-decoded n Value.uint8 a.uint8_array h
column-Does n a ArrowType.uint16 h = slots-decoded n Value.uint16 a.uint16_array h
column-Does n a ArrowType.uint32 h = slots-decoded n Value.uint32 a.uint32_array h
column-Does n a ArrowType.uint64 h = slots-decoded n Value.uint64 a.uint64_array h
column-Does n a ArrowType.float32 h = slots-decoded n Value.float a.float32_array h
column-Does n a ArrowType.float64 h = slots-decoded n Value.double a.float64_array h
column-Does n a ArrowType.utf8 h = slots-decoded n Value.string a.string_array h
column-Does n a ArrowType.binary h = slots-decoded n Value.varbinary a.binary_array h
column-Does n a ArrowType.timestamp_millisecond h =
    slots-decoded n Value.timestamp a.timestamp_millisecond_array h
column-Does n a ArrowType.time32_millisecond h =
    slots-decoded n Value.timestamp a.time32_millisecond_array h
column-Does n a ArrowType.large_utf8 h = λ rows idx. ground (arith, h)
column-Does n a ArrowType.large_binary h = λ rows idx. ground (arith, h)
column-Does n a (ArrowType.dictionary ArrowType.int32 ArrowType.utf8) h =
    slots-decoded n Value.string a.string_dictionary_array h
column-Does n a _ h = λ rows idx. (_, refl)

-- What filling in the columns from `idx` on does, after the columns in `bs`.
abbrev Fills : ℕ → List ArrayRef → List (List Value) → Support → Type 0
Fills idx columns bs supported = (cols : List (List Value)) × HasCells (length bs) columns cols
Fills idx columns bs large =
    fill_columns idx columns
      (glue bs (replicate (length bs) (replicate (length columns) Value.null)))
    ≡ panicked
Fills idx columns bs other_type =
    (e : Text) × (fill_columns idx columns
        (glue bs (replicate (length bs) (replicate (length columns) Value.null)))
      ≡ unsupported_type e)

module _ (a : ArrayRef) (columns : List ArrayRef) (idx : ℕ) (bs : List (List Value))
    (h : IsFilledTo idx bs) (col : List Value) (is : cells (length bs) a a.data_type ≡ some col)
    (l : length col ≡ length bs) where
  abbrev nulls : List Value
  nulls = replicate (length columns) Value.null

  step_over :
      (result : Filled)
      → fill_columns (suc idx) columns (glue (snoc bs col) (replicate (length (snoc bs col)) nulls))
        ≡ result
      → fill_columns idx (a ∷ columns) (glue bs (replicate (length bs) (Value.null ∷ nulls)))
        ≡ result
  unfolding fill_columns
  step_over result later =
      rw (column-glue bs idx h nulls a a.data_type col is l, fill_columns)
        (subst
          (λ n. fill_columns (suc idx) columns (glue (snoc bs col) (replicate n nulls)) ≡ result)
          (length-snoc bs col l) later)

  Fills-over :
      (s : Support) → Fills (suc idx) columns (snoc bs col) s → Fills idx (a ∷ columns) bs s
  Fills-over supported (cols, has) =
      (col ∷ cols, (is, l, subst (λ n. HasCells n columns cols) (length-snoc bs col l) has))
  Fills-over large later = step_over panicked later
  Fills-over other_type (e, later) = (e, step_over (unsupported_type e) later)

columns-Fills :
    (columns : List ArrayRef) (idx : ℕ) (bs : List (List Value))
    → IsFilledTo idx bs
    → AreArrays (length bs) columns
    → Fills idx columns bs (first_support columns)
unfolding fill_columns
columns-Fills [] idx bs h arrays = ([], tt)
columns-Fills (a ∷ columns) idx bs h (array, arrays) =
    go (support_of a.data_type) (column-Does (length bs) a a.data_type array) (λ col l.
      columns-Fills columns (suc idx) (snoc bs col) (IsFilledTo-snoc idx bs col h)
        (subst (λ n. AreArrays n columns) (sym (length-snoc bs col l)) arrays))
  where
    nulls' : List Value
    nulls' = Value.null ∷ replicate (length columns) Value.null

    go :
        (s : Support)
        → Does (length bs) a a.data_type s
        → ((col : List Value)
            → length col ≡ length bs
            → Fills (suc idx) columns (snoc bs col) (first_support columns))
        → Fills idx (a ∷ columns) bs (else_support s (first_support columns))
    go supported (col, is, l) later =
        Fills-over a columns idx bs h col is l (first_support columns) (later col l)
    go large panics later = ground (arith, panics (glue bs (replicate (length bs) nulls')) idx)
    go other_type refuses later =
        let (e, is) = refuses (glue bs (replicate (length bs) nulls')) idx in
        (e, ground (arith, is))

-- What filling in a record batch does.
abbrev pub FillsBatch : RecordBatch → Support → Type 0
FillsBatch batch supported = (cols : List (List Value)) × HasCells batch.num_rows batch.columns cols
FillsBatch batch large = with_arrow_record_batch batch ≡ panicked
FillsBatch batch other_type = (e : Text) × (with_arrow_record_batch batch ≡ unsupported_type e)

pub batch-FillsBatch :
    (batch : RecordBatch)
    → AreArrays batch.num_rows batch.columns
    → FillsBatch batch (first_support batch.columns)
unfolding with_arrow_record_batch
batch-FillsBatch batch arrays = go (first_support batch.columns) (
    columns-Fills batch.columns 0 empty (IsFilledTo-replicate n)
      (subst (λ m. AreArrays m batch.columns) (sym same) arrays))
  where
    n : ℕ
    n = batch.num_rows

    empty : List (List Value)
    empty = replicate n []

    nulls' : List Value
    nulls' = replicate (length batch.columns) Value.null

    same : length empty ≡ n
    same = length-replicate n []

    table : glue empty (replicate (length empty) nulls') ≡ replicate n nulls'
    table =
        ap (λ m. glue empty (replicate m nulls')) same
        ∙ glue-empty n (replicate n nulls') (length-replicate n nulls')

    go : (s : Support) → Fills 0 batch.columns empty s → FillsBatch batch s
    go supported (cols, has) = (cols, subst (λ m. HasCells m batch.columns cols) same has)
    go large panics = ap (fill_columns 0 batch.columns) (sym table) ∙ panics
    go other_type (e, refuses) = (e, ap (fill_columns 0 batch.columns) (sym table) ∙ refuses)
