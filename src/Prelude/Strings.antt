-- ===== src/Prelude/Strings.antt =====
-- A Rust `String` or `&str` as the list of its bytes, and the operations of `str` that the client
-- calls.
use Prim.Native.Nat.{ℕ, ◌+◌, compare, Ordering}
use Prim.Native.Char.{code}
use Prim.Native.String.{String}
use mathlib.Core.Path.{◌≡◌, refl}
use mathlib.Core.Logic.{◌↔◌}
use mathlib.Core.Bool.{Bool, true, false, ◌&&◌, ◌||◌}
use mathlib.Core.List.{List, [], ◌∷◌, map}
use native.Mathlib.Omega.{arith}
use incubator_horaedb_client.Prelude.Tests.{◌==◌, leb, if◌then◌else◌}
use incubator_horaedb_client.Prelude.Order.{Eq, Ord}
use incubator_horaedb_client.Prelude.BTreeMap.{chosen}
use mathlib.Core.Option.{Option, some}

abbrev pub Text : Type 0
Text = List ℕ

-- The bytes of an ASCII literal.
abbrev pub text : String → Text
text String.[] = []
text (String.◌∷◌ c s) = code c ∷ text s

unfoldable pub text_beq : Text → Text → Bool
text_beq [] [] = true
text_beq (c ∷ s) (d ∷ t) = (c == d) && text_beq s t
text_beq _ _ = false

pub text_beq_iff : (s t : Text) → (text_beq s t ≡ true) ↔ (s ≡ t)
unfolding text_beq
text_beq_iff [] [] = (λ _. refl, λ _. refl)
text_beq_iff [] (d ∷ t) = (λ h. cc, λ h. cc)
text_beq_iff (c ∷ s) [] = (λ h. cc, λ h. cc)
text_beq_iff (c ∷ s) (d ∷ t) =
    let (sound, complete) = text_beq_iff s t in
    (λ h. ground (arith, sound), λ h. ground (arith, complete))

instance abbrev pub text_eq : Eq Text
text_eq = record { beq = text_beq; beq_iff = text_beq_iff }

-- `Ord for str`: bytewise, and a proper prefix comes first.
unfoldable pub text_cmp : Text → Text → Ordering
text_cmp [] [] = Ordering.eq
text_cmp [] (d ∷ t) = Ordering.lt
text_cmp (c ∷ s) [] = Ordering.gt
text_cmp (c ∷ s) (d ∷ t) = elim (compare c d) [
  | Ordering.lt ↦ Ordering.lt
  | Ordering.eq ↦ text_cmp s t
  | Ordering.gt ↦ Ordering.gt
]

pub text_cmp_refl : (s : Text) → text_cmp s s ≡ Ordering.eq
unfolding text_cmp
text_cmp_refl [] = refl
text_cmp_refl (c ∷ s) = ground (arith, text_cmp_refl s)

pub eq_of_text_cmp : (s t : Text) → text_cmp s t ≡ Ordering.eq → s ≡ t
unfolding text_cmp
eq_of_text_cmp [] [] h = refl
eq_of_text_cmp [] (d ∷ t) h = cc
eq_of_text_cmp (c ∷ s) [] h = cc
eq_of_text_cmp (c ∷ s) (d ∷ t) h = ground (arith, eq_of_text_cmp s t)

pub text_cmp_flip : (s t : Text) → text_cmp s t ≡ Ordering.gt → text_cmp t s ≡ Ordering.lt
unfolding text_cmp
text_cmp_flip [] [] h = cc
text_cmp_flip [] (d ∷ t) h = cc
text_cmp_flip (c ∷ s) [] h = refl
text_cmp_flip (c ∷ s) (d ∷ t) h = ground (arith, text_cmp_flip s t)

pub text_cmp_trans :
    (s t u : Text)
    → text_cmp s t ≡ Ordering.lt
    → text_cmp t u ≡ Ordering.lt
    → text_cmp s u ≡ Ordering.lt
unfolding text_cmp
text_cmp_trans [] [] u h k = cc
text_cmp_trans [] (d ∷ t) [] h k = cc
text_cmp_trans [] (d ∷ t) (e ∷ u) h k = refl
text_cmp_trans (c ∷ s) [] u h k = cc
text_cmp_trans (c ∷ s) (d ∷ t) [] h k = cc
text_cmp_trans (c ∷ s) (d ∷ t) (e ∷ u) h k = ground (arith, text_cmp_trans s t u)

instance abbrev pub text_ord : Ord Text
text_ord = record {
  cmp = text_cmp;
  cmp_refl = text_cmp_refl;
  eq_of_cmp = eq_of_text_cmp;
  cmp_flip = text_cmp_flip;
  cmp_trans = text_cmp_trans;
}

-- `str::starts_with` and `str::contains` for a text pattern.
unfoldable pub starts_with : Text → Text → Bool
starts_with s [] = true
starts_with [] (p ∷ ps) = false
starts_with (c ∷ s) (p ∷ ps) = (c == p) && starts_with s ps

unfoldable pub contains : Text → Text → Bool
unfolding starts_with
contains [] p = starts_with [] p
contains (c ∷ s) p = starts_with (c ∷ s) p || contains s p

-- `u8::to_ascii_lowercase` and `str::eq_ignore_ascii_case`.
unfoldable pub to_ascii_lowercase : ℕ → ℕ
to_ascii_lowercase c = if leb b'A' c && leb c b'Z' then c + 32 else c

unfoldable pub eq_ignore_ascii_case : Text → Text → Bool
unfolding to_ascii_lowercase text_beq
eq_ignore_ascii_case s t = text_beq (map to_ascii_lowercase s) (map to_ascii_lowercase t)

-- The comparison of two texts, as `BTreeMap` uses it, agrees with their equality.
pub chosen-text_cmp {κ} :
    {V : Type κ} (k j : Text) (v : V) (old : Option V)
    → chosen (text_cmp j k) v old ≡ (if text_beq k j then some v else old)
chosen-text_cmp k j v old = ground (arith, eq_of_text_cmp j k, text_cmp_refl j, text_beq_iff k j)
