-- ===== src/Prelude/Decimal/RoundTrip.antt =====
-- A printed u32 parses back.
use incubator_horaedb_client.Prelude.Strings.{Text}
use incubator_horaedb_client.Prelude.Lists.{All, All-append, snoc-ne-nil}
use Prim.Native.Nat.{ℕ, zero, suc, ◌+◌, ◌-◌, ◌*◌, ◌/◌, ◌%◌, ◌^◌, ◌≤◌, ◌<◌}
use mathlib.Core.Path.{◌≡◌, refl, ◌∙◌}
use mathlib.Core.Logic.{◌≢◌}
use mathlib.Core.List.{[], ◌∷◌, ◌++◌}
use native.Mathlib.Nat.{pow-suc}
use native.Mathlib.Omega.{arith}
use incubator_horaedb_client.Prelude.Decimal.{
  show_digits, show_u32, parsed, push_digit, ◌>>=◌, parse_digits, parse_u32,
}

abbrev pub IsDigit : ℕ → Type 0
IsDigit c = (b'0' ≤ c) × (c ≤ b'9')

parse_digits-snoc :
    (acc : ℕ) (s : Text) (d : ℕ)
    → parse_digits acc (s ++ d ∷ []) ≡ (parse_digits acc s >>= λ n. push_digit n d)
unfolding parse_digits
parse_digits-snoc acc [] d = ground arith
parse_digits-snoc acc (c ∷ s) d = ground (arith, parse_digits-snoc (acc * 10 + (c - b'0')) s d)

parse-show_digits :
    (fuel n : ℕ)
    → n < 10 ^ suc fuel
    → n < 2 ^ 32
    → parse_digits 0 (show_digits (suc fuel) n) ≡ parsed n
unfolding show_digits parse_digits
parse-show_digits zero n h b = ground arith
parse-show_digits (suc fuel) n h b =
    let k : n < 10 ^ suc fuel * 10 = rw pow-suc at h in
    ground (
      arith,
      parse-show_digits fuel (n / 10) (omega arith) (omega arith),
      parse_digits-snoc 0 (show_digits (suc fuel) (n / 10)) (b'0' + n % 10),
    )

show_digits-IsDigit : (fuel n : ℕ) → All IsDigit (show_digits fuel n)
unfolding show_digits
show_digits-IsDigit zero n = tt
show_digits-IsDigit (suc fuel) n = ground (
  arith,
  show_digits-IsDigit fuel (n / 10),
  All-append IsDigit (show_digits fuel (n / 10)) ((b'0' + n % 10) ∷ []),
)

pub show_u32-IsDigit : (n : ℕ) → All IsDigit (show_u32 n)
unfolding show_u32
show_u32-IsDigit n = show_digits-IsDigit 10 n

-- A text of digits goes to the digit loop whole, since no digit is a sign.
parse_u32_of_digits : (s : Text) → s ≢ [] → All IsDigit s → parse_u32 s ≡ parse_digits 0 s
unfolding parse_u32
parse_u32_of_digits [] ne h = absurd (ne refl)
parse_u32_of_digits (c ∷ []) ne h = refl
parse_u32_of_digits (c ∷ d ∷ s) ne h = ground arith

show_digits-ne-nil : (fuel n : ℕ) → show_digits (suc fuel) n ≢ []
unfolding show_digits
show_digits-ne-nil fuel n e =
    ground (arith, snoc-ne-nil (show_digits fuel (n / 10)) (b'0' + n % 10))

pub parse-show_u32 : (n : ℕ) → n < 2 ^ 32 → parse_u32 (show_u32 n) ≡ parsed n
unfolding show_u32
parse-show_u32 n h =
    parse_u32_of_digits (show_digits 10 n) (show_digits-ne-nil 9 n) (show_digits-IsDigit 10 n)
    ∙ parse-show_digits 9 n (omega arith) h
