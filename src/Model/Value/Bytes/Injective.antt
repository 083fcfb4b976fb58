-- ===== src/Model/Value/Bytes/Injective.antt =====
-- How long the bytes of a value are, and that they determine a value of a known type.
use incubator_horaedb_client.Prelude.{
  ℕ, ◌^◌, ◌<◌, ◌≡◌, ◌∙◌, refl, sym, ap, Bool, Option, some, none, arith, length,
}
use incubator_horaedb_client.Prelude.Int.{ℤ, as_unsigned, FitsSigned, le_bytes}
use incubator_horaedb_client.Prelude.Int.Words.{
  from_le_bytes, from_le_bytes-le_bytes, as_unsigned-8-lt, as_unsigned-16-lt, as_unsigned-32-lt,
  as_unsigned-64-lt,
}
use incubator_horaedb_client.Model.Value.{Value, DataType, data_type}
use incubator_horaedb_client.Model.Value.Value.{
  null, timestamp, double, float, varbinary, string, uint64, uint32, uint16, uint8, int64, int32,
  int16, int8, boolean,
}
use incubator_horaedb_client.Model.Value.InRange.{InRange}
use incubator_horaedb_client.Model.Value.Cast.{bit}
use incubator_horaedb_client.Model.Value.Bytes.{to_bytes}

-- The size of a value of the type in bytes, where it does not depend on the value.
abbrev pub width : DataType → Option ℕ
width DataType.null = some 0
width DataType.timestamp = some 8
width DataType.double = some 8
width DataType.float = some 4
width DataType.varbinary = none
width DataType.string = none
width DataType.uint64 = some 8
width DataType.uint32 = some 4
width DataType.uint16 = some 2
width DataType.uint8 = some 1
width DataType.int64 = some 8
width DataType.int32 = some 4
width DataType.int16 = some 2
width DataType.int8 = some 1
width DataType.boolean = some 1

-- The bytes of a value of a fixed-size type have the size of the type.
pub length-to_bytes : (v : Value) (n : ℕ) → width (data_type v) ≡ some n → length (to_bytes v) ≡ n
unfolding data_type to_bytes
length-to_bytes (varbinary v) n h = cc
length-to_bytes (string v) n h = cc
length-to_bytes v n h = ground arith

le_bytes-injective :
    (count a b : ℕ)
    → a < 256 ^ count
    → b < 256 ^ count
    → le_bytes count a ≡ le_bytes count b
    → a ≡ b
le_bytes-injective count a b ha hb e =
    sym (from_le_bytes-le_bytes count a ha) ∙ ap from_le_bytes e ∙ from_le_bytes-le_bytes count b hb

as_unsigned-8-injective :
    (a b : ℤ) → FitsSigned 8 a → FitsSigned 8 b → as_unsigned 8 a ≡ as_unsigned 8 b → a ≡ b
unfolding as_unsigned
as_unsigned-8-injective a b ha hb e = ground arith

as_unsigned-16-injective :
    (a b : ℤ) → FitsSigned 16 a → FitsSigned 16 b → as_unsigned 16 a ≡ as_unsigned 16 b → a ≡ b
unfolding as_unsigned
as_unsigned-16-injective a b ha hb e = ground arith

as_unsigned-32-injective :
    (a b : ℤ) → FitsSigned 32 a → FitsSigned 32 b → as_unsigned 32 a ≡ as_unsigned 32 b → a ≡ b
unfolding as_unsigned
as_unsigned-32-injective a b ha hb e = ground arith

as_unsigned-64-injective :
    (a b : ℤ) → FitsSigned 64 a → FitsSigned 64 b → as_unsigned 64 a ≡ as_unsigned 64 b → a ≡ b
unfolding as_unsigned
as_unsigned-64-injective a b ha hb e = ground arith

bit-lt-256 : (b : Bool) → bit b < 256 ^ 1
bit-lt-256 b = ground arith

bit-injective : (a b : Bool) → bit a ≡ bit b → a ≡ b
bit-injective a b e = ground arith

-- Two values of one type, each in the range of its Rust type, that have the same bytes are equal.
pub to_bytes-injective :
    (v w : Value)
    → data_type v ≡ data_type w
    → InRange v
    → InRange w
    → to_bytes v ≡ to_bytes w
    → v ≡ w
unfolding data_type to_bytes
to_bytes-injective null null t hv hw e = refl
to_bytes-injective (timestamp a) (timestamp b) t hv hw e = ap timestamp (
    as_unsigned-64-injective a b hv hw
      (le_bytes-injective 8 _ _ (as_unsigned-64-lt a) (as_unsigned-64-lt b) e))
to_bytes-injective (double a) (double b) t hv hw e = ap double (le_bytes-injective 8 a b hv hw e)
to_bytes-injective (float a) (float b) t hv hw e = ap float (le_bytes-injective 4 a b hv hw e)
to_bytes-injective (varbinary a) (varbinary b) t hv hw e = ap varbinary e
to_bytes-injective (string a) (string b) t hv hw e = ap string e
to_bytes-injective (uint64 a) (uint64 b) t hv hw e = ap uint64 (le_bytes-injective 8 a b hv hw e)
to_bytes-injective (uint32 a) (uint32 b) t hv hw e = ap uint32 (le_bytes-injective 4 a b hv hw e)
to_bytes-injective (uint16 a) (uint16 b) t hv hw e = ap uint16 (le_bytes-injective 2 a b hv hw e)
to_bytes-injective (uint8 a) (uint8 b) t hv hw e = ap uint8 (le_bytes-injective 1 a b hv hw e)
to_bytes-injective (int64 a) (int64 b) t hv hw e = ap int64 (
    as_unsigned-64-injective a b hv hw
      (le_bytes-injective 8 _ _ (as_unsigned-64-lt a) (as_unsigned-64-lt b) e))
to_bytes-injective (int32 a) (int32 b) t hv hw e = ap int32 (
    as_unsigned-32-injective a b hv hw
      (le_bytes-injective 4 _ _ (as_unsigned-32-lt a) (as_unsigned-32-lt b) e))
to_bytes-injective (int16 a) (int16 b) t hv hw e = ap int16 (
    as_unsigned-16-injective a b hv hw
      (le_bytes-injective 2 _ _ (as_unsigned-16-lt a) (as_unsigned-16-lt b) e))
to_bytes-injective (int8 a) (int8 b) t hv hw e = ap int8 (
    as_unsigned-8-injective a b hv hw
      (le_bytes-injective 1 _ _ (as_unsigned-8-lt a) (as_unsigned-8-lt b) e))
to_bytes-injective (boolean a) (boolean b) t hv hw e =
    ap boolean
      (bit-injective a b (le_bytes-injective 1 (bit a) (bit b) (bit-lt-256 a) (bit-lt-256 b) e))
to_bytes-injective v w t hv hw e = cc
