-- ===== src/Model/SqlQuery/Row.antt =====
-- src/model/sql_query/row.rs: the rows of a result, built column by column from Arrow arrays.
pub mod Cells
pub mod Fill
pub mod Build
pub mod Nulls
pub mod Support
pub mod Outcomes
use incubator_horaedb_client.Prelude.{
  ℕ, suc, Bool, Option, none, some, List, [], ◌∷◌, Text, text, text_beq, ◌++◌, length, get_elem?,
  set, replicate, ltb, if◌then◌else◌,
}
use incubator_horaedb_client.Prelude.Int.{ℤ}
use incubator_horaedb_client.Model.Value.{Value}

pub record Column : Type 0 where
  pub name : Text
  pub value : Value

pub record Row : Type 0 where
  pub columns : List Column

-- `Row::column`: the first column of the name.
unfoldable pub find_column : Text → List Column → Option Column
find_column name [] = none
find_column name (c ∷ cs) = if text_beq c.name name then some c else find_column name cs

unfoldable pub column : Row → Text → Option Column
unfolding find_column
column row name = find_column name row.columns

-- The data types of Arrow that the code tells apart.
pub data ArrowType : Type 0 where
  null boolean int8 int16 int32 int64 uint8 uint16 uint32 uint64 float32 float64 : ArrowType
  utf8 large_utf8 binary large_binary : ArrowType
  timestamp_millisecond time32_millisecond : ArrowType
  dictionary : ArrowType → ArrowType → ArrowType
  unsupported : Text → ArrowType

-- What the code uses of an `ArrayRef` of the crate arrow: its type, the printed type, and for each
-- array type the outcome of the downcast, with what `value` reads from each slot. The code never
-- asks whether a slot is valid; `value` reads an invalid slot too.
pub record ArrayRef : Type 0 where
  pub data_type : ArrowType
  pub printed_type : Text
  pub boolean_array : Option (List Bool)
  pub int8_array : Option (List ℤ)
  pub int16_array : Option (List ℤ)
  pub int32_array : Option (List ℤ)
  pub int64_array : Option (List ℤ)
  pub uint8_array : Option (List ℕ)
  pub uint16_array : Option (List ℕ)
  pub uint32_array : Option (List ℕ)
  pub uint64_array : Option (List ℕ)
  pub float32_array : Option (List ℕ)
  pub float64_array : Option (List ℕ)
  pub string_array : Option (List Text)
  pub binary_array : Option (List (List ℕ))
  pub timestamp_millisecond_array : Option (List ℤ)
  pub time32_millisecond_array : Option (List ℤ)
  -- `as_dictionary::<Int32Type>().downcast_dict::<StringArray>()`
  pub string_dictionary_array : Option (List Text)

-- `RecordBatch`: the names of its schema, its columns and its number of rows.
pub record RecordBatch : Type 0 where
  pub field_names : List Text
  pub columns : List ArrayRef
  pub num_rows : ℕ

-- The outcome of filling a column: the rows, an unsupported type, or a panic.
pub data Filled : Type 0 where
  filled : List (List Value) → Filled
  unsupported_type : Text → Filled
  panicked : Filled

-- The loop over the rows: slot `row_idx` goes to column `col_idx` of row `row_idx`.
unfoldable pub fill_rows :
    {A : Type 0} → (A → Value) → ℕ → List A → List (List Value) → Option (List (List Value))
fill_rows to_value col_idx values [] = some []
fill_rows to_value col_idx [] (row ∷ rows) = none
fill_rows to_value col_idx (v ∷ values) (row ∷ rows) =
    if ltb col_idx (length row)
    then (elim (fill_rows to_value col_idx values rows) [
      | none ↦ none
      | some rest ↦ some (set row col_idx (to_value v) ∷ rest)
    ])
    else none

-- The macro `fill_column!`: a failed downcast panics.
abbrev pub fill_column :
    {A : Type 0} → Option (List A) → (A → Value) → ℕ → List (List Value) → Filled
fill_column none to_value col_idx rows = panicked
fill_column (some values) to_value col_idx rows = elim (fill_rows to_value col_idx values rows) [
  | none ↦ panicked
  | some rows' ↦ filled rows'
]

-- `fill_column_in_row_batch`.
unfoldable pub fill_column_in_row_batch : List (List Value) → ℕ → ArrayRef → ArrowType → Filled
unfolding fill_rows
fill_column_in_row_batch rows col_idx a ArrowType.null = filled rows
fill_column_in_row_batch rows col_idx a ArrowType.boolean =
    fill_column a.boolean_array Value.boolean col_idx rows
fill_column_in_row_batch rows col_idx a ArrowType.int8 =
    fill_column a.int8_array Value.int8 col_idx rows
fill_column_in_row_batch rows col_idx a ArrowType.int16 =
    fill_column a.int16_array Value.int16 col_idx rows
fill_column_in_row_batch rows col_idx a ArrowType.int32 =
    fill_column a.int32_array Value.int32 col_idx rows
fill_column_in_row_batch rows col_idx a ArrowType.int64 =
    fill_column a.int64_array Value.int64 col_idx rows
fill_column_in_row_batch rows col_idx a ArrowType.uint8 =
    fill_column a.uint8_array Value.uint8 col_idx rows
fill_column_in_row_batch rows col_idx a ArrowType.uint16 =
    fill_column a.uint16_array Value.uint16 col_idx rows
fill_column_in_row_batch rows col_idx a ArrowType.uint32 =
    fill_column a.uint32_array Value.uint32 col_idx rows
fill_column_in_row_batch rows col_idx a ArrowType.uint64 =
    fill_column a.uint64_array Value.uint64 col_idx rows
fill_column_in_row_batch rows col_idx a ArrowType.float32 =
    fill_column a.float32_array Value.float col_idx rows
fill_column_in_row_batch rows col_idx a ArrowType.float64 =
    fill_column a.float64_array Value.double col_idx rows
fill_column_in_row_batch rows col_idx a ArrowType.utf8 =
    fill_column a.string_array Value.string col_idx rows
fill_column_in_row_batch rows col_idx a ArrowType.large_utf8 =
    fill_column a.string_array Value.string col_idx rows
fill_column_in_row_batch rows col_idx a ArrowType.binary =
    fill_column a.binary_array Value.varbinary col_idx rows
fill_column_in_row_batch rows col_idx a ArrowType.large_binary =
    fill_column a.binary_array Value.varbinary col_idx rows
fill_column_in_row_batch rows col_idx a ArrowType.timestamp_millisecond =
    fill_column a.timestamp_millisecond_array Value.timestamp col_idx rows
fill_column_in_row_batch rows col_idx a ArrowType.time32_millisecond =
    fill_column a.time32_millisecond_array Value.timestamp col_idx rows
fill_column_in_row_batch rows col_idx a (ArrowType.dictionary ArrowType.int32 ArrowType.utf8) =
    fill_column a.string_dictionary_array Value.string col_idx rows
fill_column_in_row_batch rows col_idx a _ =
    unsupported_type (text "Unsupported arrow type:" ++ a.printed_type)

pub record RowBuilder : Type 0 where
  pub col_idx_to_name : List Text
  pub row_values : List (List Value)

-- The loop over the columns.
unfoldable pub fill_columns : ℕ → List ArrayRef → List (List Value) → Filled
unfolding fill_column_in_row_batch
fill_columns col_idx [] rows = filled rows
fill_columns col_idx (a ∷ columns) rows =
    elim (fill_column_in_row_batch rows col_idx a a.data_type) [
      | filled rows' ↦ fill_columns (suc col_idx) columns rows'
      | unsupported_type e ↦ unsupported_type e
      | panicked ↦ panicked
    ]

-- `RowBuilder::with_arrow_record_batch` fills a table of nulls.
unfoldable pub with_arrow_record_batch : RecordBatch → Filled
unfolding fill_columns
with_arrow_record_batch batch =
    fill_columns 0 batch.columns
      (replicate batch.num_rows (replicate (length batch.columns) Value.null))

-- The columns of one row of `RowBuilder::build`; a column without a name panics.
unfoldable pub name_columns : List Text → ℕ → List Value → Option (List Column)
name_columns names col_idx [] = some []
name_columns names col_idx (value ∷ values) = elim (get_elem? names col_idx) [
  | none ↦ none
  | some name ↦ elim (name_columns names (suc col_idx) values) [
    | none ↦ none
    | some rest ↦ some (record { name = name; value = value } ∷ rest)
  ]
]

-- `RowBuilder::build`, over the rows left.
unfoldable pub build : List Text → List (List Value) → Option (List Row)
unfolding name_columns
build names [] = some []
build names (row ∷ rows) = elim (name_columns names 0 row) [
  | none ↦ none
  | some columns ↦ elim (build names rows) [
    | none ↦ none
    | some rest ↦ some (record { columns = columns } ∷ rest)
  ]
]
