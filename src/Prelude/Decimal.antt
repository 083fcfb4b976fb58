-- ===== src/Prelude/Decimal.antt =====
-- Decimal numbers as the standard library prints and parses them.
pub mod RoundTrip
use incubator_horaedb_client.Prelude.Tests.{◌==◌, ltb, leb, if◌then◌else◌}
use incubator_horaedb_client.Prelude.Strings.{Text}
use Prim.Native.Nat.{ℕ, zero, suc, ◌+◌, ◌-◌, ◌*◌, ◌/◌, ◌%◌, ◌^◌}
use mathlib.Core.Bool.{◌&&◌}
use mathlib.Core.List.{[], ◌∷◌, ◌++◌}

-- `Display for u32`, for numbers of at most `fuel` digits.
unfoldable pub show_digits : ℕ → ℕ → Text
show_digits zero n = []
show_digits (suc fuel) n =
    let front = show_digits fuel (n / 10) in
    if ltb n 10 then (b'0' + n) ∷ [] else front ++ (b'0' + n % 10) ∷ []

-- A u32 has at most 10 digits.
unfoldable pub show_u32 : ℕ → Text
unfolding show_digits
show_u32 n = show_digits 10 n

pub data ParseIntError : Type 0 where
  empty invalid_digit pos_overflow : ParseIntError

pub data Parsed : Type 0 where
  parsed : ℕ → Parsed
  rejected : ParseIntError → Parsed

-- One digit of `u32::from_str`: the character is judged before the overflow is.
unfoldable pub push_digit : ℕ → ℕ → Parsed
push_digit acc c =
    if leb b'0' c && leb c b'9'
    then (if ltb (acc * 10 + (c - b'0')) (2 ^ 32)
        then parsed (acc * 10 + (c - b'0'))
        else rejected pos_overflow)
    else rejected invalid_digit

infixl 5 ◌>>=◌
abbrev pub ◌>>=◌ : Parsed → (ℕ → Parsed) → Parsed
parsed n >>= f = f n
rejected e >>= f = rejected e

unfoldable pub parse_digits : ℕ → Text → Parsed
unfolding push_digit
parse_digits acc [] = parsed acc
parse_digits acc (c ∷ s) = push_digit acc c >>= λ n. parse_digits n s

-- `u32::from_str`: one leading `+` is allowed before at least one digit.
unfoldable pub parse_u32 : Text → Parsed
unfolding parse_digits
parse_u32 [] = rejected empty
parse_u32 (c ∷ []) = parse_digits 0 (c ∷ [])
parse_u32 (c ∷ d ∷ s) = if c == b'+' then parse_digits 0 (d ∷ s) else parse_digits 0 (c ∷ d ∷ s)
