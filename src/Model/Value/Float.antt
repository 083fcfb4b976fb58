-- ===== src/Model/Value/Float.antt =====
-- The numeric casts of Rust into `f32` and `f64`, on IEEE 754 bit patterns.
use incubator_horaedb_client.Prelude.{
  ℕ, zero, suc, ◌+◌, ◌-◌, ◌*◌, ◌/◌, ◌%◌, ◌^◌, ◌≡◌, refl, ◌&&◌, ◌||◌, ◌==◌, ltb, leb, if◌then◌else◌,
}
use incubator_horaedb_client.Prelude.Int.{ℤ, pos, negsuc}

-- The number of binary digits, for numbers below 2 ^ fuel.
unfoldable pub bit_length : ℕ → ℕ → ℕ
bit_length zero n = 0
bit_length (suc fuel) n = let rest = bit_length fuel (n / 2) in if n == 0 then 0 else suc rest

-- Division by 2 ^ s, rounded to nearest, ties to even.
unfoldable pub round_shift : ℕ → ℕ → ℕ
round_shift m s =
    let q = m / 2 ^ s in
    let r = m % 2 ^ s in
    let half = 2 ^ (s - 1) in if ltb half r || (r == half) && (q % 2 == 1) then q + 1 else q

-- The bits of a natural number below 2 ^ 64 in a format with p stored digits and the given bias.
-- The leading digit adds 1 to the exponent field, and so does a carry of the rounding.
unfoldable pub from_magnitude : ℕ → ℕ → ℕ → ℕ
unfolding bit_length round_shift
from_magnitude p bias m =
    let e = bit_length 64 m - 1 in
    if m == 0
    then 0
    else (e + bias - 1) * 2 ^ p + (if leb e p then m * 2 ^ (p - e) else round_shift m (e - p))

unfoldable pub nat_to_f32 : ℕ → ℕ
unfolding from_magnitude
nat_to_f32 n = from_magnitude 23 127 n

unfoldable pub nat_to_f64 : ℕ → ℕ
unfolding from_magnitude
nat_to_f64 n = from_magnitude 52 1023 n

unfoldable pub int_to_f32 : ℤ → ℕ
unfolding nat_to_f32
int_to_f32 (pos n) = nat_to_f32 n
int_to_f32 (negsuc n) = 2 ^ 31 + nat_to_f32 (n + 1)

unfoldable pub int_to_f64 : ℤ → ℕ
unfolding nat_to_f64
int_to_f64 (pos n) = nat_to_f64 n
int_to_f64 (negsuc n) = 2 ^ 63 + nat_to_f64 (n + 1)

-- The widening cast, by exponent field and fraction. It is exact; a NaN keeps its payload and
-- becomes quiet, as the processors do it (Rust leaves the payload open).
unfoldable pub widen : ℕ → ℕ → ℕ
unfolding bit_length
widen e f =
    if e == 255
    then 2047 * 2 ^ 52 + (if f == 0 then 0 else (if ltb f (2 ^ 22) then f + 2 ^ 22 else f) * 2 ^ 29)
    else if e == 0
    then (if f == 0
        then 0
        else (let top = bit_length 23 f - 1 in (top + 873) * 2 ^ 52 + f * 2 ^ (52 - top)))
    else (e + 896) * 2 ^ 52 + f * 2 ^ 29

unfoldable pub f32_to_f64 : ℕ → ℕ
unfolding widen
f32_to_f64 bits = (bits / 2 ^ 31) * 2 ^ 63 + widen (bits / 2 ^ 23 % 256) (bits % 2 ^ 23)

-- 1.0, -2.0, 16777217 (a tie to even) and 2 ^ 64 - 1 in f32; 2 ^ 53 + 1 in f64.
rounds :
    (int_to_f32 (pos 1) ≡ 0x3f80_0000)
    × (int_to_f32 (negsuc 1) ≡ 0xc000_0000)
    × (nat_to_f32 16777217 ≡ 0x4b80_0000)
    × (nat_to_f32 (2 ^ 64 - 1) ≡ 0x5f80_0000)
    × (nat_to_f64 9007199254740993 ≡ 0x4340_0000_0000_0000)
unfolding int_to_f32 nat_to_f32 nat_to_f64
rounds = (refl, refl, refl, refl, refl)

-- -1.5, infinity and the least subnormal 2 ^ (-149).
widens :
    (f32_to_f64 0xbfc0_0000 ≡ 0xbff8_0000_0000_0000)
    × (f32_to_f64 0x7f80_0000 ≡ 0x7ff0_0000_0000_0000)
    × (f32_to_f64 1 ≡ 0x36a0_0000_0000_0000)
unfolding f32_to_f64
widens = (refl, refl, refl)
