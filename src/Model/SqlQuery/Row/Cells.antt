-- ===== src/Model/SqlQuery/Row/Cells.antt =====
-- What each column of a record batch holds, by the types that src/model/sql_query/row.rs knows, and
-- the rows of a table of columns.
use incubator_horaedb_client.Prelude.{
  ℕ, ◌≡◌, Option, none, some, List, [], ◌∷◌, ◌++◌, map, length, replicate,
}
use incubator_horaedb_client.Model.Value.{Value}
use incubator_horaedb_client.Model.SqlQuery.Row.{ArrowType, ArrayRef}

abbrev pub decoded : {A : Type 0} → (A → Value) → Option (List A) → Option (List Value)
decoded to_value none = none
decoded to_value (some xs) = some (map to_value xs)

-- The values of a column of `n` rows; none if the type is not supported, or not the array's.
abbrev pub cells : ℕ → ArrayRef → ArrowType → Option (List Value)
cells n a ArrowType.null = some (replicate n Value.null)
cells n a ArrowType.boolean = decoded Value.boolean a.boolean_array
cells n a ArrowType.int8 = decoded Value.int8 a.int8_array
cells n a ArrowType.int16 = decoded Value.int16 a.int16_array
cells n a ArrowType.int32 = decoded Value.int32 a.int32_array
cells n a ArrowType.int64 = decoded Value.int64 a.int64_array
cells n a ArrowType.uint8 = decoded Value.uint8 a.uint8_array
cells n a ArrowType.uint16 = decoded Value.uint16 a.uint16_array
cells n a ArrowType.uint32 = decoded Value.uint32 a.uint32_array
cells n a ArrowType.uint64 = decoded Value.uint64 a.uint64_array
cells n a ArrowType.float32 = decoded Value.float a.float32_array
cells n a ArrowType.float64 = decoded Value.double a.float64_array
cells n a ArrowType.utf8 = decoded Value.string a.string_array
cells n a ArrowType.large_utf8 = decoded Value.string a.string_array
cells n a ArrowType.binary = decoded Value.varbinary a.binary_array
cells n a ArrowType.large_binary = decoded Value.varbinary a.binary_array
cells n a ArrowType.timestamp_millisecond = decoded Value.timestamp a.timestamp_millisecond_array
cells n a ArrowType.time32_millisecond = decoded Value.timestamp a.time32_millisecond_array
cells n a (ArrowType.dictionary ArrowType.int32 ArrowType.utf8) =
    decoded Value.string a.string_dictionary_array
cells n a _ = none

-- The columns hold these lists of `n` values each.
abbrev pub HasCells : ℕ → List ArrayRef → List (List Value) → Type 0
HasCells n [] [] = Unit
HasCells n [] (col ∷ cols) = ⊥
HasCells n (a ∷ columns) [] = ⊥
HasCells n (a ∷ columns) (col ∷ cols) =
    (cells n a a.data_type ≡ some col) × (length col ≡ n) × HasCells n columns cols

-- A value in front of each row.
abbrev pub zip_cons : List Value → List (List Value) → List (List Value)
zip_cons [] rows = []
zip_cons (v ∷ col) [] = []
zip_cons (v ∷ col) (row ∷ rows) = (v ∷ row) ∷ zip_cons col rows

-- The `n` rows of a table of columns.
abbrev pub rows_of : ℕ → List (List Value) → List (List Value)
rows_of n [] = replicate n []
rows_of n (col ∷ cols) = zip_cons col (rows_of n cols)

-- Rows glued to rows, and a value glued to each row.
abbrev pub glue : List (List Value) → List (List Value) → List (List Value)
glue [] rows = []
glue (b ∷ bs) [] = []
glue (b ∷ bs) (row ∷ rows) = (b ++ row) ∷ glue bs rows

abbrev pub snoc : List (List Value) → List Value → List (List Value)
snoc [] col = []
snoc (b ∷ bs) [] = []
snoc (b ∷ bs) (v ∷ col) = (b ++ v ∷ []) ∷ snoc bs col
