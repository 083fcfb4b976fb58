-- ===== src/Model/Value/Cast/Widening.antt =====
-- The signed accessors of src/model/value.rs never change the integer that they read, and the
-- unsigned ones reduce it modulo the width.
use incubator_horaedb_client.Prelude.{ℕ, ◌^◌, ◌<◌, ◌≡◌, ◌≢◌, refl, some, none, true, false, arith}
use incubator_horaedb_client.Prelude.Int.{ℤ, pos, as_unsigned, FitsSigned}
use incubator_horaedb_client.Model.Value.{Value}
use incubator_horaedb_client.Model.Value.Value.{
  null, boolean, int8, int16, int32, int64, uint8, uint16, uint32, uint64,
}
use incubator_horaedb_client.Model.Value.InRange.{InRange, integer_value}
use incubator_horaedb_client.Model.Value.Cast.{
  as_i8, as_i16, as_i32, as_i64, as_u8, as_u16, as_u32, as_u64,
}

abbrev pub IsExact : ℕ → Value → ℤ → Type 0
IsExact w v n = (integer_value v ≡ some n) × FitsSigned w n

as_i8-IsExact : (v : Value) (n : ℤ) → InRange v → as_i8 v ≡ some n → IsExact 8 v n
unfolding as_i8
as_i8-IsExact (boolean true) n r h = ground arith
as_i8-IsExact (boolean false) n r h = ground arith
as_i8-IsExact _ n r h = ground arith

as_i16-IsExact : (v : Value) (n : ℤ) → InRange v → as_i16 v ≡ some n → IsExact 16 v n
unfolding as_i16
as_i16-IsExact (boolean true) n r h = ground arith
as_i16-IsExact (boolean false) n r h = ground arith
as_i16-IsExact _ n r h = ground arith

as_i32-IsExact : (v : Value) (n : ℤ) → InRange v → as_i32 v ≡ some n → IsExact 32 v n
unfolding as_i32
as_i32-IsExact (boolean true) n r h = ground arith
as_i32-IsExact (boolean false) n r h = ground arith
as_i32-IsExact _ n r h = ground arith

as_i64-IsExact : (v : Value) (n : ℤ) → InRange v → as_i64 v ≡ some n → IsExact 64 v n
unfolding as_i64
as_i64-IsExact (boolean true) n r h = ground arith
as_i64-IsExact (boolean false) n r h = ground arith
as_i64-IsExact _ n r h = ground arith

-- A signed accessor that answers gives the integer that an in-range value stands for, and that
-- integer fits the accessor's type.
pub as_signed-IsExact :
    (v : Value) (n : ℤ)
    → InRange v
    → (as_i8 v ≡ some n → IsExact 8 v n)
      × (as_i16 v ≡ some n → IsExact 16 v n)
      × (as_i32 v ≡ some n → IsExact 32 v n)
      × (as_i64 v ≡ some n → IsExact 64 v n)
as_signed-IsExact v n r =
    (as_i8-IsExact v n r, as_i16-IsExact v n r, as_i32-IsExact v n r, as_i64-IsExact v n r)

-- `n` is the residue at w bits of the integer that the value stands for.
abbrev pub IsResidue : ℕ → Value → ℕ → Type 0
IsResidue w v n = (z : ℤ) × (integer_value v ≡ some z) × (n ≡ as_unsigned w z) × (n < 2 ^ w)

as_u8-IsResidue : (v : Value) (n : ℕ) → InRange v → as_u8 v ≡ some n → IsResidue 8 v n
unfolding as_u8
as_u8-IsResidue (boolean true) n r h = (pos 1, refl, ground arith, ground arith)
as_u8-IsResidue (boolean false) n r h = (pos 0, refl, ground arith, ground arith)
as_u8-IsResidue (int8 v) n r h = (v, refl, ground arith, ground arith)
as_u8-IsResidue (uint8 v) n r h = (pos v, refl, ground arith, ground arith)
as_u8-IsResidue _ n r h = cc

as_u16-IsResidue : (v : Value) (n : ℕ) → InRange v → as_u16 v ≡ some n → IsResidue 16 v n
unfolding as_u16
as_u16-IsResidue (boolean true) n r h = (pos 1, refl, ground arith, ground arith)
as_u16-IsResidue (boolean false) n r h = (pos 0, refl, ground arith, ground arith)
as_u16-IsResidue (int8 v) n r h = (v, refl, ground arith, ground arith)
as_u16-IsResidue (int16 v) n r h = (v, refl, ground arith, ground arith)
as_u16-IsResidue (uint8 v) n r h = (pos v, refl, ground arith, ground arith)
as_u16-IsResidue (uint16 v) n r h = (pos v, refl, ground arith, ground arith)
as_u16-IsResidue _ n r h = cc

as_u32-IsResidue : (v : Value) (n : ℕ) → InRange v → as_u32 v ≡ some n → IsResidue 32 v n
unfolding as_u32
as_u32-IsResidue (boolean true) n r h = (pos 1, refl, ground arith, ground arith)
as_u32-IsResidue (boolean false) n r h = (pos 0, refl, ground arith, ground arith)
as_u32-IsResidue (int8 v) n r h = (v, refl, ground arith, ground arith)
as_u32-IsResidue (int16 v) n r h = (v, refl, ground arith, ground arith)
as_u32-IsResidue (int32 v) n r h = (v, refl, ground arith, ground arith)
as_u32-IsResidue (uint8 v) n r h = (pos v, refl, ground arith, ground arith)
as_u32-IsResidue (uint16 v) n r h = (pos v, refl, ground arith, ground arith)
as_u32-IsResidue (uint32 v) n r h = (pos v, refl, ground arith, ground arith)
as_u32-IsResidue _ n r h = cc

as_u64-IsResidue : (v : Value) (n : ℕ) → InRange v → as_u64 v ≡ some n → IsResidue 64 v n
unfolding as_u64
as_u64-IsResidue (boolean true) n r h = (pos 1, refl, ground arith, ground arith)
as_u64-IsResidue (boolean false) n r h = (pos 0, refl, ground arith, ground arith)
as_u64-IsResidue (int8 v) n r h = (v, refl, ground arith, ground arith)
as_u64-IsResidue (int16 v) n r h = (v, refl, ground arith, ground arith)
as_u64-IsResidue (int32 v) n r h = (v, refl, ground arith, ground arith)
as_u64-IsResidue (int64 v) n r h = (v, refl, ground arith, ground arith)
as_u64-IsResidue (uint8 v) n r h = (pos v, refl, ground arith, ground arith)
as_u64-IsResidue (uint16 v) n r h = (pos v, refl, ground arith, ground arith)
as_u64-IsResidue (uint32 v) n r h = (pos v, refl, ground arith, ground arith)
as_u64-IsResidue (uint64 v) n r h = (pos v, refl, ground arith, ground arith)
as_u64-IsResidue _ n r h = cc

-- An unsigned accessor that answers gives the integer that an in-range value stands for, reduced
-- modulo 2 to the width of the accessor's type.
pub as_unsigned-IsResidue :
    (v : Value) (n : ℕ)
    → InRange v
    → (as_u8 v ≡ some n → IsResidue 8 v n)
      × (as_u16 v ≡ some n → IsResidue 16 v n)
      × (as_u32 v ≡ some n → IsResidue 32 v n)
      × (as_u64 v ≡ some n → IsResidue 64 v n)
as_unsigned-IsResidue v n r =
    (as_u8-IsResidue v n r, as_u16-IsResidue v n r, as_u32-IsResidue v n r, as_u64-IsResidue v n r)

-- Where a narrow signed accessor answers, the wider ones give the same integer; where a narrow
-- unsigned accessor answers, the wider ones answer too.
pub accessors_widen :
    (v : Value)
    → ((n : ℤ) → as_i8 v ≡ some n → as_i16 v ≡ some n)
      × ((n : ℤ) → as_i16 v ≡ some n → as_i32 v ≡ some n)
      × ((n : ℤ) → as_i32 v ≡ some n → as_i64 v ≡ some n)
      × (as_u8 v ≢ none → as_u16 v ≢ none)
      × (as_u16 v ≢ none → as_u32 v ≢ none)
      × (as_u32 v ≢ none → as_u64 v ≢ none)
unfolding as_i8 as_i16 as_i32 as_i64 as_u8 as_u16 as_u32 as_u64
accessors_widen null = (
  λ n h. ground arith,
  λ n h. ground arith,
  λ n h. ground arith,
  λ h. ground arith,
  λ h. ground arith,
  λ h. ground arith,
)
accessors_widen v = (
  λ n h. ground arith,
  λ n h. ground arith,
  λ n h. ground arith,
  λ h. ground arith,
  λ h. ground arith,
  λ h. ground arith,
)
