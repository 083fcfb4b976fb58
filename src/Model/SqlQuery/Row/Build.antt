-- ===== src/Model/SqlQuery/Row/Build.antt =====
-- `RowBuilder::build` of src/model/sql_query/row.rs names the values of each row.
use incubator_horaedb_client.Prelude.{
  ℕ, zero, suc, ◌≤◌, ◌≡◌, ◌∙◌, refl, sym, ap, subst, some, List, [], ◌∷◌, ◌++◌, map, Text, length,
  length-append, get_elem?, get_elem?-middle, replicate, arith, All,
}
use mathlib.Core.List.{append_assoc}
use incubator_horaedb_client.Model.Value.{Value}
use incubator_horaedb_client.Model.SqlQuery.Row.{
  Column, Row, ArrayRef, RecordBatch, name_columns, build,
}
use incubator_horaedb_client.Model.SqlQuery.Row.Cells.{HasCells, zip_cons, rows_of}

-- The values of a row under the names, in order.
abbrev pub named_columns : List Text → List Value → List Column
named_columns names [] = []
named_columns [] (v ∷ values) = []
named_columns (name ∷ names) (v ∷ values) =
    record { name = name; value = v } ∷ named_columns names values

abbrev pub named_row : List Text → List Value → Row
named_row names values = record { columns = named_columns names values }

name_columns-append :
    (before names : List Text) (idx : ℕ) (values : List Value)
    → length before ≡ idx
    → length values ≤ length names
    → name_columns (before ++ names) idx values ≡ some (named_columns names values)
unfolding name_columns
name_columns-append before names idx [] l h = refl
name_columns-append before [] idx (v ∷ values) l h = absurd (omega arith)
name_columns-append before (name ∷ names) idx (v ∷ values) l h =
    let here : get_elem? (before ++ name ∷ names) idx ≡ some name =
      ap (get_elem? (before ++ name ∷ names)) (sym l) ∙ get_elem?-middle before name names in
    let later : name_columns (before ++ name ∷ names) (suc idx) values
        ≡ some (named_columns names values) =
      ap (λ ns. name_columns ns (suc idx) values) (sym (append_assoc before (name ∷ []) names))
      ∙ name_columns-append (before ++ name ∷ []) names (suc idx) values
          (omega (arith, length-append before (name ∷ []), l)) (omega arith) in
    ground (arith, here, later)

build-named_row :
    (names : List Text) (rows : List (List Value))
    → All (λ row. length row ≤ length names) rows
    → build names rows ≡ some (map (named_row names) rows)
unfolding build
build-named_row names [] h = refl
build-named_row names (row ∷ rows) (here, h) =
    ground (arith, name_columns-append [] names 0 row refl here, build-named_row names rows h)

widths_zip :
    (w : ℕ) (col : List Value) (rows : List (List Value))
    → All (λ row. length row ≤ w) rows
    → All (λ row. length row ≤ suc w) (zip_cons col rows)
widths_zip w [] rows h = tt
widths_zip w (v ∷ col) [] h = tt
widths_zip w (v ∷ col) (row ∷ rows) (here, h) = (omega arith, widths_zip w col rows h)

widths_nil : (n : ℕ) → All (λ (row : List Value). length row ≤ 0) (replicate n [])
widths_nil zero = tt
widths_nil (suc n) = (omega arith, widths_nil n)

widths :
    (n : ℕ) (columns : List ArrayRef) (cols : List (List Value))
    → HasCells n columns cols
    → All (λ row. length row ≤ length columns) (rows_of n cols)
widths n [] [] k = widths_nil n
widths n [] (col ∷ cols) k = absurd k
widths n (a ∷ columns) [] k = absurd k
widths n (a ∷ columns) (col ∷ cols) (e, l, k) =
    widths_zip (length columns) col (rows_of n cols) (widths n columns cols k)

pub build-rows_of :
    (batch : RecordBatch) (cols : List (List Value))
    → length batch.field_names ≡ length batch.columns
    → HasCells batch.num_rows batch.columns cols
    → build batch.field_names (rows_of batch.num_rows cols)
      ≡ some (map (named_row batch.field_names) (rows_of batch.num_rows cols))
build-rows_of batch cols l k = build-named_row batch.field_names (rows_of batch.num_rows cols) (
    subst (λ w. All (λ row. length row ≤ w) (rows_of batch.num_rows cols)) (sym l)
      (widths batch.num_rows batch.columns cols k))
