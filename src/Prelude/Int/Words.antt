-- ===== src/Prelude/Int/Words.antt =====
-- Bounds and congruences of the casts, and the bytes of a word.
use Prim.Native.Nat.{ℕ, zero, suc, ◌+◌, ◌*◌, ◌/◌, ◌^◌, ◌<◌}
use mathlib.Core.Path.{◌≡◌, refl, ap}
use mathlib.Core.List.{List, [], ◌∷◌}
use native.Mathlib.Omega.{arith}
use native.Mathlib.Nat.{pow-suc}
use incubator_horaedb_client.Prelude.Lists.{length}
use incubator_horaedb_client.Prelude.Int.{
  ℤ, pos, negsuc, as_unsigned, wrap_signed, FitsSigned, le_bytes,
}

pub as_unsigned-8-lt : (z : ℤ) → as_unsigned 8 z < 2 ^ 8
unfolding as_unsigned
as_unsigned-8-lt z = ground arith

pub as_unsigned-16-lt : (z : ℤ) → as_unsigned 16 z < 2 ^ 16
unfolding as_unsigned
as_unsigned-16-lt z = ground arith

pub as_unsigned-32-lt : (z : ℤ) → as_unsigned 32 z < 2 ^ 32
unfolding as_unsigned
as_unsigned-32-lt z = ground arith

pub as_unsigned-64-lt : (z : ℤ) → as_unsigned 64 z < 2 ^ 64
unfolding as_unsigned
as_unsigned-64-lt z = ground arith

-- A signed word comes back from its unsigned bits.
pub wrap_signed-8_fits : (z : ℤ) → FitsSigned 8 z → wrap_signed 8 z ≡ z
unfolding wrap_signed
wrap_signed-8_fits (pos n) h = ground arith
wrap_signed-8_fits (negsuc n) h = ground arith

pub wrap_signed-16_fits : (z : ℤ) → FitsSigned 16 z → wrap_signed 16 z ≡ z
unfolding wrap_signed
wrap_signed-16_fits (pos n) h = ground arith
wrap_signed-16_fits (negsuc n) h = ground arith

-- The value of bytes in little-endian order.
unfoldable pub from_le_bytes : List ℕ → ℕ
from_le_bytes [] = 0
from_le_bytes (b ∷ bs) = b + 256 * from_le_bytes bs

pub length-le_bytes : (count n : ℕ) → length (le_bytes count n) ≡ count
unfolding le_bytes
length-le_bytes zero n = refl
length-le_bytes (suc count) n = ap suc (length-le_bytes count (n / 256))

pub from_le_bytes-le_bytes : (count n : ℕ) → n < 256 ^ count → from_le_bytes (le_bytes count n) ≡ n
unfolding from_le_bytes le_bytes
from_le_bytes-le_bytes zero n h = omega arith
from_le_bytes-le_bytes (suc count) n h =
    let k : n < 256 ^ count * 256 = rw pow-suc at h in
    omega (arith, from_le_bytes-le_bytes count (n / 256) (omega arith))
