-- ===== src/Model/SqlQuery/Row/Support.antt =====
-- Which columns of a record batch src/model/sql_query/row.rs fills in, which it refuses and at which it
-- panics, by their types.
use incubator_horaedb_client.Prelude.{ℕ, ◌≡◌, Option, none, some, List, [], ◌∷◌, length, All}
use incubator_horaedb_client.Model.SqlQuery.Row.{ArrowType, ArrayRef}

-- What becomes of a column of a type: it is filled in, or its downcast panics, or it is refused.
pub data Support : Type 0 where
  supported large other_type : Support

abbrev pub support_of : ArrowType → Support
support_of ArrowType.null = supported
support_of ArrowType.boolean = supported
support_of ArrowType.int8 = supported
support_of ArrowType.int16 = supported
support_of ArrowType.int32 = supported
support_of ArrowType.int64 = supported
support_of ArrowType.uint8 = supported
support_of ArrowType.uint16 = supported
support_of ArrowType.uint32 = supported
support_of ArrowType.uint64 = supported
support_of ArrowType.float32 = supported
support_of ArrowType.float64 = supported
support_of ArrowType.utf8 = supported
support_of ArrowType.binary = supported
support_of ArrowType.timestamp_millisecond = supported
support_of ArrowType.time32_millisecond = supported
support_of ArrowType.large_utf8 = large
support_of ArrowType.large_binary = large
support_of (ArrowType.dictionary ArrowType.int32 ArrowType.utf8) = supported
support_of _ = other_type

-- The first of the two that is not `supported`, if there is one.
abbrev pub else_support : Support → Support → Support
else_support supported rest = rest
else_support large rest = large
else_support other_type rest = other_type

-- The support of the first column that cannot be filled in, if there is one.
abbrev pub first_support : List ArrayRef → Support
first_support [] = supported
first_support (a ∷ columns) = else_support (support_of a.data_type) (first_support columns)

-- An array with this many slots.
abbrev pub HasSlots : {A : Type 0} → ℕ → Option (List A) → Type 0
HasSlots {A} n array = (xs : List A) × (array ≡ some xs) × (length xs ≡ n)

-- What the crate arrow documents of an array of `n` slots and its type: it is the array of this type,
-- and of no other. A `LargeUtf8` array is a `LargeStringArray` and no `StringArray`, and a
-- `LargeBinary` array is a `LargeBinaryArray` and no `BinaryArray`.
abbrev pub IsArray : ℕ → ArrayRef → ArrowType → Type 0
IsArray n a ArrowType.boolean = HasSlots n a.boolean_array
IsArray n a ArrowType.int8 = HasSlots n a.int8_array
IsArray n a ArrowType.int16 = HasSlots n a.int16_array
IsArray n a ArrowType.int32 = HasSlots n a.int32_array
IsArray n a ArrowType.int64 = HasSlots n a.int64_array
IsArray n a ArrowType.uint8 = HasSlots n a.uint8_array
IsArray n a ArrowType.uint16 = HasSlots n a.uint16_array
IsArray n a ArrowType.uint32 = HasSlots n a.uint32_array
IsArray n a ArrowType.uint64 = HasSlots n a.uint64_array
IsArray n a ArrowType.float32 = HasSlots n a.float32_array
IsArray n a ArrowType.float64 = HasSlots n a.float64_array
IsArray n a ArrowType.utf8 = HasSlots n a.string_array
IsArray n a ArrowType.binary = HasSlots n a.binary_array
IsArray n a ArrowType.timestamp_millisecond = HasSlots n a.timestamp_millisecond_array
IsArray n a ArrowType.time32_millisecond = HasSlots n a.time32_millisecond_array
IsArray n a ArrowType.large_utf8 = a.string_array ≡ none
IsArray n a ArrowType.large_binary = a.binary_array ≡ none
IsArray n a (ArrowType.dictionary ArrowType.int32 ArrowType.utf8) =
    HasSlots n a.string_dictionary_array
IsArray n a _ = Unit

abbrev pub AreArrays : ℕ → List ArrayRef → Type 0
AreArrays n columns = All (λ (a : ArrayRef). IsArray n a a.data_type) columns
