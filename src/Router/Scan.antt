-- ===== src/Router/Scan.antt =====
-- What the first loop of `route` in src/router.rs finds.
use incubator_horaedb_client.Prelude.{
  ℕ, zero, suc, ◌+◌, ◌≡◌, ◌∙◌, refl, sym, ap, ◌⊎◌, inl, inr, Option, none, some, List, [], ◌∷◌,
  ◌++◌, Text, text_beq, text_beq_iff, text_eq, length, length-append, get_elem?, set, set-append,
  replicate, if◌then◌else◌, arith, Option-cases, Bool-cases,
}
use mathlib.Core.List.{append_assoc}
use incubator_horaedb_client.Prelude.HashMap
use incubator_horaedb_client.Prelude.HashMap.{HashMap}
use incubator_horaedb_client.Model.Route.{Endpoint}
use incubator_horaedb_client.Router.{Cache, Targets, find_cached}

-- The endpoint of a table in the cache, or `d`.
abbrev pub cached_or : Option Endpoint → Option Endpoint → Option Endpoint
cached_or none d = d
cached_or (some e) d = some e

-- The last position of a table in a list that starts at position `i`.
abbrev pub last_index : ℕ → Text → List Text → Option ℕ → Option ℕ
last_index i t [] old = old
last_index i t (x ∷ xs) old = last_index (suc i) t xs (if text_beq x t then some i else old)

module _ (cache : Cache) where
  abbrev pub scanned : Option Endpoint → List Text → Targets
  scanned d [] = []
  scanned d (t ∷ ts) = cached_or (HashMap.get t cache) d ∷ scanned d ts

  set_next :
      (before : Targets) (x d : Option Endpoint) (rest targets : Targets) (i : ℕ)
      → i ≡ length before
      → targets ≡ before ++ d ∷ rest
      → set targets i x ≡ (before ++ x ∷ []) ++ rest
  set_next before x d rest targets i l h =
      rw (l, h) (set-append before d rest x ∙ sym (append_assoc before (x ∷ []) rest))

  pub find_cached-targets :
      (d : Option Endpoint) (before : Targets) (tables : List Text) (i : ℕ) (targets : Targets)
      (misses : HashMap Text ℕ)
      → i ≡ length before
      → targets ≡ before ++ replicate (length tables) d
      → (find_cached cache i tables targets misses).0 ≡ before ++ scanned d tables
  unfolding find_cached
  find_cached-targets d before [] i targets misses l h = h
  find_cached-targets d before (t ∷ ts) i targets misses l h =
      elim (Option-cases (HashMap.get t cache)) [
        | inl miss ↦
            rw (miss, find_cached)
              (find_cached-targets d (before ++ d ∷ []) ts (suc i) targets
                  (HashMap.insert t i misses) (omega (arith, length-append before (d ∷ [])))
                  (h ∙ sym (append_assoc before (d ∷ []) (replicate (length ts) d)))
                ∙ append_assoc before (d ∷ []) (scanned d ts))
        | inr (e, hit) ↦
            rw (hit, find_cached)
              (find_cached-targets d (before ++ some e ∷ []) ts (suc i) (set targets i (some e))
                  misses (omega (arith, length-append before (some e ∷ [])))
                  (set_next before (some e) d (replicate (length ts) d) targets i l h)
                ∙ append_assoc before (some e ∷ []) (scanned d ts))
      ]

  pub find_cached-misses :
      (t : Text) (tables : List Text) (i : ℕ) (targets : Targets) (misses : HashMap Text ℕ)
      → HashMap.get t (find_cached cache i tables targets misses).1 ≡ (elim (HashMap.get t cache) [
        | some e ↦ HashMap.get t misses
        | none ↦ last_index i t tables (HashMap.get t misses)
      ])
  unfolding find_cached
  find_cached-misses t [] i targets misses = ground arith
  find_cached-misses t (x ∷ xs) i targets misses = ground (
    arith,
    find_cached-misses t xs (suc i) (set targets i (HashMap.get x cache)) misses,
    find_cached-misses t xs (suc i) targets (HashMap.insert x i misses),
    HashMap.get-insert x t i misses,
    text_beq_iff x t,
  )

  pub get_elem?-scanned :
      (d : Option Endpoint) (tables : List Text) (j : ℕ) {t : Text}
      → get_elem? tables j ≡ some t
      → get_elem? (scanned d tables) j ≡ some (cached_or (HashMap.get t cache) d)
  get_elem?-scanned d [] j h = cc
  get_elem?-scanned d (x ∷ xs) zero h = ground arith
  get_elem?-scanned d (x ∷ xs) (suc j) h = get_elem?-scanned d xs j h

  pub length-scanned :
      (d : Option Endpoint) (tables : List Text) → length (scanned d tables) ≡ length tables
  length-scanned d [] = refl
  length-scanned d (x ∷ xs) = ap suc (length-scanned d xs)

-- A table stands at its last index.
pub last_index_sound :
    (i : ℕ) (t : Text) (tables : List Text) (old : Option ℕ) {k : ℕ}
    → last_index i t tables old ≡ some k
    → (old ≡ some k) ⊎ ((j : ℕ) × (k ≡ i + j) × (get_elem? tables j ≡ some t))
last_index_sound i t [] old h = inl h
last_index_sound i t (x ∷ xs) old h =
    elim (last_index_sound (suc i) t xs (if text_beq x t then some i else old) h) [
      | inl here ↦ elim (Bool-cases (text_beq x t)) [
        | inl same ↦ inr (0, ground (arith, same), ground (arith, same, text_beq_iff x t))
        | inr differ ↦ inl (ground (arith, differ))
      ]
      | inr (j, place, found) ↦ inr (suc j, omega arith, found)
    ]
