-- ===== src/Model/Value.antt =====
-- src/model/value.rs: the values of tags, fields and result columns.
pub mod InRange
pub mod Float
pub mod Cast
pub mod Bytes
pub mod Proto
use incubator_horaedb_client.Prelude.{ℕ, Bool, true, false, List, Text}
use incubator_horaedb_client.Prelude.Int.{ℤ}

-- A float is its IEEE 754 bit pattern; u8 to u64 are numbers, i8 to i64 are integers.
pub data Value : Type 0 where
  null : Value
  timestamp : ℤ → Value
  double : ℕ → Value
  float : ℕ → Value
  varbinary : List ℕ → Value
  string : Text → Value
  uint64 uint32 uint16 uint8 : ℕ → Value
  int64 int32 int16 int8 : ℤ → Value
  boolean : Bool → Value

pub data DataType : Type 0 where
  null timestamp double float varbinary string : DataType
  uint64 uint32 uint16 uint8 int64 int32 int16 int8 boolean : DataType

unfoldable pub data_type : Value → DataType
data_type Value.null = DataType.null
data_type (Value.timestamp v) = DataType.timestamp
data_type (Value.double v) = DataType.double
data_type (Value.float v) = DataType.float
data_type (Value.varbinary v) = DataType.varbinary
data_type (Value.string v) = DataType.string
data_type (Value.uint64 v) = DataType.uint64
data_type (Value.uint32 v) = DataType.uint32
data_type (Value.uint16 v) = DataType.uint16
data_type (Value.uint8 v) = DataType.uint8
data_type (Value.int64 v) = DataType.int64
data_type (Value.int32 v) = DataType.int32
data_type (Value.int16 v) = DataType.int16
data_type (Value.int8 v) = DataType.int8
data_type (Value.boolean v) = DataType.boolean

unfoldable pub is_null : Value → Bool
is_null Value.null = true
is_null _ = false
