-- ===== src/Write/PbBuilder/Names/Conversion.antt =====
-- `NameDict::convert_ordered` in src/model/write/request.rs writes each name at its number.
use incubator_horaedb_client.Prelude.{
  ℕ, suc, ◌+◌, ◌<◌, ◌≤◌, ◌≡◌, ◌∙◌, refl, sym, ap, Option, some, List, [], ◌∷◌, ◌++◌, Text, text_eq,
  length, length-append, get_elem?, get_elem?-lt, get_elem?-middle, get_elem?-set_self,
  get_elem?-set_ne, length-set, length-replicate, eq_of_get_elem?, set, subst, All, replicate,
  arith, inl, inr,
}
use incubator_horaedb_client.Prelude.Rearrange.{Any, All-Permᴰ, Any-Permᴰ}
use mathlib.Core.Logic.{∥∥₁_elim}
use mathlib.Core.List.{append_assoc, Permᴰ}
use mathlib.Core.List.Permᴰ
use native.Mathlib.Decide.{ℕ_discrete}
use incubator_horaedb_client.Prelude.HashMap.{HashMap, HashOrder}
use incubator_horaedb_client.Write.PbBuilder.Names.{NameDict, write_names, convert_ordered}
use incubator_horaedb_client.Write.PbBuilder.Names.Numbering.{IsNumbered, names, length-names}

-- The loop of `convert_ordered`, where each entry's number is the position of its name in `ns`.
record Written (ns : List Text) (ps : List (Text × ℕ)) (base : List Text) : Type 0 where
  result : List Text
  returned : write_names ps base ≡ some result
  sized : length result ≡ length ns
  kept : (j : ℕ) → get_elem? base j ≡ get_elem? ns j → get_elem? result j ≡ get_elem? ns j
  hit : (j : ℕ) → Any (λ p. p.1 ≡ j) ps → get_elem? result j ≡ get_elem? ns j

set_hits :
    (ns base : List Text) (name : Text) (idx j : ℕ)
    → length base ≡ length ns
    → get_elem? ns idx ≡ some name
    → idx ≡ j
    → get_elem? (set base idx name) j ≡ get_elem? ns j
set_hits ns base name idx j l here e =
    subst (λ k. get_elem? (set base idx name) k ≡ get_elem? ns k) e
      (get_elem?-set_self base idx name (omega (arith, get_elem?-lt ns idx here)) ∙ sym here)

-- One write of the right name keeps what was right.
set_keeps :
    (ns base : List Text) (name : Text) (idx j : ℕ)
    → length base ≡ length ns
    → get_elem? ns idx ≡ some name
    → get_elem? base j ≡ get_elem? ns j
    → get_elem? (set base idx name) j ≡ get_elem? ns j
set_keeps ns base name idx j l here h = elim (ℕ_discrete idx j) [
  | yes same ↦ set_hits ns base name idx j l here same
  | no differ ↦ get_elem?-set_ne base idx j name differ ∙ h
]

write_names-Written :
    (ns : List Text) (ps : List (Text × ℕ)) (base : List Text)
    → length base ≡ length ns
    → All (λ p. get_elem? ns p.1 ≡ some p.0) ps
    → Written ns ps base
unfolding write_names
write_names-Written ns [] base l h = record {
  result = base;
  returned = refl;
  sized = l;
  kept = λ j k. k;
  hit = λ j k. elim k [ ];
}
write_names-Written ns ((name, idx) ∷ ps) base l (here, h) =
    let inside = get_elem?-lt ns idx here in
    let rest = write_names-Written ns ps (set base idx name) (length-set base idx name ∙ l) h in
    record {
      result = rest.result;
      returned = ground (arith, inside, l, rest.returned);
      sized = rest.sized;
      kept = λ j k. rest.kept j (set_keeps ns base name idx j l here k);
      hit = λ j k. elim k [
        | inl e ↦ rest.kept j (set_hits ns base name idx j l here e)
        | inr more ↦ rest.hit j more
      ];
    }

numbered_right :
    (start : ℕ) (before : List Text) (m : HashMap Text ℕ)
    → length before ≡ start
    → IsNumbered start m
    → All (λ p. get_elem? (before ++ names m) p.1 ≡ some p.0) m
numbered_right start before [] l h = tt
numbered_right start before ((n, i) ∷ m) l (here, h) = (
  rw (here, ← l) (get_elem?-middle before n (names m)),
  subst (λ (ns : List Text). All (λ p. get_elem? ns p.1 ≡ some p.0) m)
      (append_assoc before (n ∷ []) (names m))
      (numbered_right (suc start) (before ++ n ∷ []) m
        (omega (arith, length-append before (n ∷ []))) h),
)

numbered_covers :
    (start j : ℕ) (m : HashMap Text ℕ)
    → IsNumbered start m
    → start ≤ j
    → j < start + length m
    → Any (λ p. p.1 ≡ j) m
numbered_covers start j [] h a b = absurd (omega arith)
numbered_covers start j ((n, i) ∷ m) (here, h) a b = elim (ℕ_discrete i j) [
  | yes same ↦ inl same
  | no differ ↦ inr (numbered_covers (suc start) j m h (omega arith) (omega arith))
]

Option_names-set : IsSet (Option (List Text))
Option_names-set = hlevel

converted :
    (d : NameDict) (ps : List (Text × ℕ))
    → IsNumbered 0 d.dict
    → Permᴰ d.dict ps
    → write_names ps (replicate (length d.dict) []) ≡ some (names d.dict)
converted d ps h perm =
    let w =
      write_names-Written (names d.dict) ps (replicate (length d.dict) [])
        (length-replicate (length d.dict) [] ∙ sym (length-names d.dict))
        (All-Permᴰ _ perm (numbered_right 0 [] d.dict refl h)) in
    let covered : (j : ℕ) → j < length w.result → Any (λ p. p.1 ≡ j) ps = λ j k.
      Any-Permᴰ (λ (p : Text × ℕ). p.1 ≡ j) perm
        (numbered_covers 0 j d.dict h (omega arith)
          (omega (arith, k, w.sized, length-names d.dict))) in
    w.returned
    ∙ ap some (eq_of_get_elem? w.result (names d.dict) w.sized (λ j k. w.hit j (covered j k)))

-- Whatever the order in which the map yields its entries, the conversion of a dictionary whose
-- entries are numbered from 0 does not panic and gives its names, each at its number.
pub convert_ordered_lem :
    (order : HashOrder Text ℕ) (d : NameDict)
    → IsNumbered 0 d.dict
    → convert_ordered order d ≡ some (names d.dict)
unfolding convert_ordered
convert_ordered_lem order d h =
    ∥∥₁_elim (order.arrange-perm d.dict) (Option_names-set _ _)
      (λ perm. converted d (order.arrange d.dict) h (Permᴰ.symm perm))
