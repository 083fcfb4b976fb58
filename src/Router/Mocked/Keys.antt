-- ===== src/Router/Mocked/Keys.antt =====
-- The tables that `route` in src/router.rs asks for, and what the mock client answers for them.
use incubator_horaedb_client.Prelude.{
  ℕ, zero, suc, ◌+◌, ◌≤◌, ◌<◌, ◌≡◌, ◌∙◌, refl, ap, inl, inr, true, false, not, Option, none, some,
  List, [], ◌∷◌, ◌++◌, Text, text_beq, text_beq_iff, text_eq, length, if◌then◌else◌, arith,
  Option-cases, Bool-cases,
}
use mathlib.Core.List.{Permᴰ}
use mathlib.Core.Logic.{∥∥₁_elim}
use mathlib.Core.Bool.{Bool-set}
use incubator_horaedb_client.Prelude.HashMap
use incubator_horaedb_client.Prelude.HashMap.{HashMap, HashOrder}
use incubator_horaedb_client.Model.Route.{Endpoint, from_pb}
use incubator_horaedb_client.RpcClient.Mock.{routes_of}
use incubator_horaedb_client.Router.{keys}
use incubator_horaedb_client.Router.Scan.{last_index}
use incubator_horaedb_client.Router.Fill.{answer}
use incubator_horaedb_client.Router.Found.{is_last}
use incubator_horaedb_client.Router.Evict.{is_in}

is_in-Permᴰ : (t : Text) {m n : HashMap Text ℕ} → Permᴰ m n → is_in t (keys m) ≡ is_in t (keys n)
is_in-Permᴰ t Permᴰ.nil = refl
is_in-Permᴰ t (Permᴰ.cons e d) =
    ground (arith, ap (λ (p : Text × ℕ). text_beq p.0 t) e, is_in-Permᴰ t d)
is_in-Permᴰ t (Permᴰ.swap e f) =
    ground (arith, ap (λ (p : Text × ℕ). text_beq p.0 t) e, ap (λ (p : Text × ℕ). text_beq p.0 t) f)
is_in-Permᴰ t (Permᴰ.trans d d') = is_in-Permᴰ t d ∙ is_in-Permᴰ t d'

-- The order of the entries plays no part.
pub is_in-arrange :
    (order : HashOrder Text ℕ) (t : Text) (m : HashMap Text ℕ)
    → is_in t (keys (order.arrange m)) ≡ is_in t (keys m)
is_in-arrange order t m =
    ∥∥₁_elim (order.arrange-perm m) (Bool-set _ _) (λ perm. is_in-Permᴰ t perm)

pub is_in-keys :
    (t : Text) (m : HashMap Text ℕ)
    → is_in t (keys m) ≡ (elim (HashMap.get t m) [ none ↦ false | some k ↦ true ])
unfolding HashMap.get
is_in-keys t [] = refl
is_in-keys t ((u, k) ∷ m) = ground (arith, is_in-keys t m)

pub last_index-is_in :
    (i : ℕ) (t : Text) (tables : List Text) (old : Option ℕ)
    → is_in t tables ≡ false
    → last_index i t tables old ≡ old
last_index-is_in i t [] old h = refl
last_index-is_in i t (x ∷ xs) old h =
    ground (arith, last_index-is_in (suc i) t xs (if text_beq x t then some i else old))

pub last_index_le :
    (i : ℕ) (t : Text) (tables : List Text) (old : Option ℕ)
    → is_in t tables ≡ true
    → (k : ℕ) × (last_index i t tables old ≡ some k) × (i ≤ k)
last_index_le i t [] old h = cc
last_index_le i t (x ∷ xs) old h = elim (Bool-cases (is_in t xs)) [
  | inl again ↦
      let (k, at, le) = last_index_le (suc i) t xs (if text_beq x t then some i else old) again in
      (k, at, omega arith)
  | inr last ↦ (
    i,
    last_index-is_in (suc i) t xs (if text_beq x t then some i else old) last
        ∙ ground (arith, last),
    omega arith,
  )
]

last_index_middle :
    (i : ℕ) (t : Text) (before after : List Text) (old : Option ℕ)
    → last_index i t (before ++ t ∷ after) old
      ≡ last_index (suc (i + length before)) t after (some (i + length before))
last_index_middle i t [] after old = ground (arith, text_beq_iff t t)
last_index_middle i t (x ∷ xs) after old =
    last_index_middle (suc i) t xs after (if text_beq x t then some i else old)
    ∙ ap (λ k. last_index (suc k) t after (some k)) (omega arith)

-- A place is the last of its table if the table is not among those after it.
pub is_last_middle :
    (t : Text) (before after : List Text)
    → is_last (length before) t (before ++ t ∷ after) ≡ not (is_in t after)
is_last_middle t before after = elim (Bool-cases (is_in t after)) [
  | inl again ↦
      let (k, at, le) = last_index_le (suc (length before)) t after (some (length before)) again in
      ground (arith, again, last_index_middle 0 t before after none, at)
  | inr last ↦ ground (
    arith,
    last,
    last_index_middle 0 t before after none,
    last_index-is_in (suc (length before)) t after (some (length before)) last,
  )
]

-- The mock client answers for the tables of its route table that it is asked for.
pub answer-routes_of :
    (w : HashMap Text Endpoint) (t : Text) (tables : List Text) (old : Option Endpoint)
    → answer old t (routes_of w tables)
      ≡ (if is_in t tables then (elim (HashMap.get t w) [ some e ↦ some e | none ↦ old ]) else old)
unfolding routes_of from_pb
answer-routes_of w t [] old = refl
answer-routes_of w t (x ∷ xs) old = elim (Option-cases (HashMap.get x w)) [
  | inl absent ↦ ground (arith, absent, text_beq_iff x t, answer-routes_of w t xs old)
  | inr (e, has) ↦
      ground (
        arith,
        has,
        text_beq_iff x t,
        answer-routes_of w t xs old,
        answer-routes_of w t xs (some e),
      )
]

pub is_in_middle : (t : Text) (before after : List Text) → is_in t (before ++ t ∷ after) ≡ true
is_in_middle t [] after = ground (arith, text_beq_iff t t)
is_in_middle t (x ∷ xs) after = ground (arith, is_in_middle t xs after)

-- A list around one of its places.
pub split_at :
    (tables : List Text) (i : ℕ)
    → i < length tables
    → (before after : List Text) × (t : Text) × (before ++ t ∷ after ≡ tables) × (length before ≡ i)
split_at [] i h = absurd (omega arith)
split_at (x ∷ xs) zero h = ([], xs, x, refl, refl)
split_at (x ∷ xs) (suc i) h =
    let (before, after, t, split, l) = split_at xs i (omega arith) in
    (x ∷ before, after, t, ap (λ ts. x ∷ ts) split, ap suc l)
