-- ===== src/Model/Value/Cast.antt =====
-- The `as_*` accessors of src/model/value.rs.
pub mod Widening
use incubator_horaedb_client.Prelude.{
  ℕ, ◌^◌, Bool, true, false, Option, some, none, List, Text, if◌then◌else◌,
}
use incubator_horaedb_client.Prelude.Int.{ℤ, pos, as_unsigned}
use incubator_horaedb_client.Model.Value.{Value}
use incubator_horaedb_client.Model.Value.Value.{
  double, float, varbinary, string, uint64, uint32, uint16, uint8, int64, int32, int16, int8,
  boolean,
}
use incubator_horaedb_client.Model.Value.Float.{
  nat_to_f32, nat_to_f64, int_to_f32, int_to_f64, f32_to_f64,
}

-- `b as u8` and the like.
abbrev pub bit : Bool → ℕ
bit true = 1
bit false = 0

unfoldable pub as_i8 : Value → Option ℤ
as_i8 (boolean v) = some (pos (bit v))
as_i8 (int8 v) = some v
as_i8 _ = none

unfoldable pub as_u8 : Value → Option ℕ
unfolding as_unsigned
as_u8 (boolean v) = some (bit v)
as_u8 (int8 v) = some (as_unsigned 8 v)
as_u8 (uint8 v) = some v
as_u8 _ = none

unfoldable pub as_i16 : Value → Option ℤ
as_i16 (boolean v) = some (pos (bit v))
as_i16 (int8 v) = some v
as_i16 (uint8 v) = some (pos v)
as_i16 (int16 v) = some v
as_i16 _ = none

unfoldable pub as_u16 : Value → Option ℕ
unfolding as_unsigned
as_u16 (boolean v) = some (bit v)
as_u16 (int8 v) = some (as_unsigned 16 v)
as_u16 (uint8 v) = some v
as_u16 (int16 v) = some (as_unsigned 16 v)
as_u16 (uint16 v) = some v
as_u16 _ = none

unfoldable pub as_i32 : Value → Option ℤ
as_i32 (boolean v) = some (pos (bit v))
as_i32 (int8 v) = some v
as_i32 (uint8 v) = some (pos v)
as_i32 (int16 v) = some v
as_i32 (uint16 v) = some (pos v)
as_i32 (int32 v) = some v
as_i32 _ = none

unfoldable pub as_u32 : Value → Option ℕ
unfolding as_unsigned
as_u32 (boolean v) = some (bit v)
as_u32 (int8 v) = some (as_unsigned 32 v)
as_u32 (uint8 v) = some v
as_u32 (int16 v) = some (as_unsigned 32 v)
as_u32 (uint16 v) = some v
as_u32 (int32 v) = some (as_unsigned 32 v)
as_u32 (uint32 v) = some v
as_u32 _ = none

unfoldable pub as_i64 : Value → Option ℤ
as_i64 (boolean v) = some (pos (bit v))
as_i64 (int8 v) = some v
as_i64 (uint8 v) = some (pos v)
as_i64 (int16 v) = some v
as_i64 (uint16 v) = some (pos v)
as_i64 (int32 v) = some v
as_i64 (uint32 v) = some (pos v)
as_i64 (int64 v) = some v
as_i64 _ = none

unfoldable pub as_u64 : Value → Option ℕ
unfolding as_unsigned
as_u64 (boolean v) = some (bit v)
as_u64 (int8 v) = some (as_unsigned 64 v)
as_u64 (uint8 v) = some v
as_u64 (int16 v) = some (as_unsigned 64 v)
as_u64 (uint16 v) = some v
as_u64 (int32 v) = some (as_unsigned 64 v)
as_u64 (uint32 v) = some v
as_u64 (int64 v) = some (as_unsigned 64 v)
as_u64 (uint64 v) = some v
as_u64 _ = none

unfoldable pub as_f32 : Value → Option ℕ
unfolding nat_to_f32 int_to_f32
as_f32 (float v) = some v
as_f32 (uint64 v) = some (nat_to_f32 v)
as_f32 (uint32 v) = some (nat_to_f32 v)
as_f32 (uint16 v) = some (nat_to_f32 v)
as_f32 (uint8 v) = some (nat_to_f32 v)
as_f32 (int64 v) = some (int_to_f32 v)
as_f32 (int32 v) = some (int_to_f32 v)
as_f32 (int16 v) = some (int_to_f32 v)
as_f32 (int8 v) = some (int_to_f32 v)
as_f32 _ = none

unfoldable pub as_f64 : Value → Option ℕ
unfolding nat_to_f64 int_to_f64 f32_to_f64
as_f64 (double v) = some v
as_f64 (float v) = some (f32_to_f64 v)
as_f64 (uint64 v) = some (nat_to_f64 v)
as_f64 (uint32 v) = some (nat_to_f64 v)
as_f64 (uint16 v) = some (nat_to_f64 v)
as_f64 (uint8 v) = some (nat_to_f64 v)
as_f64 (int64 v) = some (int_to_f64 v)
as_f64 (int32 v) = some (int_to_f64 v)
as_f64 (int16 v) = some (int_to_f64 v)
as_f64 (int8 v) = some (int_to_f64 v)
as_f64 _ = none

unfoldable pub as_varbinary : Value → Option (List ℕ)
as_varbinary (varbinary v) = some v
as_varbinary _ = none

unfoldable pub as_str : Value → Option Text
as_str (string v) = some v
as_str _ = none
