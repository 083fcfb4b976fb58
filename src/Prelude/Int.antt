-- ===== src/Prelude/Int.antt =====
-- Signed integers over the native numbers, and the casts between machine words of w bits.
pub mod Words
use Prim.Native.Nat.{ℕ, zero, suc, ◌+◌, ◌-◌, ◌*◌, ◌/◌, ◌%◌, ◌^◌, ◌≤◌, ◌<◌, compare, Ordering}
use mathlib.Core.Path.{◌≡◌, refl, ap}
use mathlib.Core.Bool.{Bool, true, false}
use mathlib.Core.List.{List, [], ◌∷◌}
use native.Mathlib.Omega.{arith}
use incubator_horaedb_client.Prelude.Tests.{ltb, if◌then◌else◌}
use incubator_horaedb_client.Prelude.Order.{Ord}

-- `negsuc n` is -(n + 1).
pub data ℤ : Type 0 where
  pos : ℕ → ℤ
  negsuc : ℕ → ℤ

-- The cast of a signed integer to an unsigned word: its residue modulo 2 ^ w.
unfoldable pub as_unsigned : ℕ → ℤ → ℕ
as_unsigned w (pos n) = n % 2 ^ w
as_unsigned w (negsuc n) = 2 ^ w - 1 - n % 2 ^ w

-- The integer that an unsigned word stands for in two's complement at w bits; `half` is 2 ^ (w - 1).
unfoldable pub as_signed : ℕ → ℕ → ℤ
as_signed w n = let r = n % 2 ^ w in if ltb r (2 ^ (w - 1)) then pos r else negsuc (2 ^ w - 1 - r)

-- The cast between signed words, to w bits.
unfoldable pub wrap_signed : ℕ → ℤ → ℤ
unfolding as_unsigned as_signed
wrap_signed w z = as_signed w (as_unsigned w z)

-- What a signed word of w bits can hold.
abbrev pub FitsSigned : ℕ → ℤ → Type 0
FitsSigned w (pos n) = n < 2 ^ (w - 1)
FitsSigned w (negsuc n) = n < 2 ^ (w - 1)

-- `to_le_bytes` of a word of `count` bytes.
unfoldable pub le_bytes : ℕ → ℕ → List ℕ
le_bytes zero n = []
le_bytes (suc count) n = (n % 256) ∷ le_bytes count (n / 256)

-- `Ord for i64`.
unfoldable pub int_cmp : ℤ → ℤ → Ordering
int_cmp (pos a) (pos b) = compare a b
int_cmp (pos a) (negsuc b) = Ordering.gt
int_cmp (negsuc a) (pos b) = Ordering.lt
int_cmp (negsuc a) (negsuc b) = compare b a

pub int_cmp_refl : (a : ℤ) → int_cmp a a ≡ Ordering.eq
unfolding int_cmp
int_cmp_refl a = ground arith

pub eq_of_int_cmp : (a b : ℤ) → int_cmp a b ≡ Ordering.eq → a ≡ b
unfolding int_cmp
eq_of_int_cmp a b h = ground arith

pub int_cmp_flip : (a b : ℤ) → int_cmp a b ≡ Ordering.gt → int_cmp b a ≡ Ordering.lt
unfolding int_cmp
int_cmp_flip a b h = ground arith

pub int_cmp_trans :
    (a b c : ℤ) → int_cmp a b ≡ Ordering.lt → int_cmp b c ≡ Ordering.lt → int_cmp a c ≡ Ordering.lt
unfolding int_cmp
int_cmp_trans a b c h k = ground arith

instance abbrev pub int_ord : Ord ℤ
int_ord = record {
  cmp = int_cmp;
  cmp_refl = int_cmp_refl;
  eq_of_cmp = eq_of_int_cmp;
  cmp_flip = int_cmp_flip;
  cmp_trans = int_cmp_trans;
}
