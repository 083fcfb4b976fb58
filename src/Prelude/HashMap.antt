-- ===== src/Prelude/HashMap.antt =====
-- `HashMap` and `DashMap` as association lists with distinct keys.
use mathlib.Core.Path.{◌≡◌, refl}
use mathlib.Core.Option.{Option, none, some, get_or}
use mathlib.Core.List.{List, [], ◌∷◌, Perm}
use native.Mathlib.Omega.{arith}
use incubator_horaedb_client.Prelude.Tests.{if◌then◌else◌}
use incubator_horaedb_client.Prelude.Order.{Eq}

abbrev pub HashMap {ℓ κ} : Type ℓ → Type κ → Type (ℓ ⊔ κ)
HashMap K V = List (K × V)

module _ {ℓ κ} {K : Type ℓ} {V : Type κ} ⦃e : Eq K⦄ where
  unfoldable pub get : K → HashMap K V → Option V
  get k [] = none
  get k ((j, v) ∷ m) = if e.beq j k then some v else get k m

  unfoldable pub insert : K → V → HashMap K V → HashMap K V
  insert k v [] = (k, v) ∷ []
  insert k v ((j, w) ∷ m) = if e.beq j k then (j, v) ∷ m else (j, w) ∷ insert k v m

  unfoldable pub remove : K → HashMap K V → HashMap K V
  remove k [] = []
  remove k ((j, v) ∷ m) = let rest = remove k m in if e.beq j k then rest else (j, v) ∷ rest

  pub get-insert :
      (k j : K) (v : V) (m : HashMap K V)
      → get j (insert k v m) ≡ (if e.beq k j then some v else get j m)
  unfolding get insert
  get-insert k j v [] = refl
  get-insert k j v ((i, w) ∷ m) =
      ground (arith, e.beq_iff k j, e.beq_iff i k, e.beq_iff i j, get-insert k j v m)

  pub get-remove :
      (k j : K) (m : HashMap K V) → get j (remove k m) ≡ (if e.beq k j then none else get j m)
  unfolding get remove
  get-remove k j [] = ground arith
  get-remove k j ((i, w) ∷ m) =
      ground (arith, e.beq_iff k j, e.beq_iff i k, e.beq_iff i j, get-remove k j m)

  -- `entry(k).or_insert(default)`, with `change` applied to the value through the reference.
  unfoldable pub update : K → V → (V → V) → HashMap K V → HashMap K V
  update k default change [] = (k, change default) ∷ []
  update k default change ((j, v) ∷ m) =
      if e.beq j k then (j, change v) ∷ m else (j, v) ∷ update k default change m

  pub get-update :
      (k j : K) (default : V) (change : V → V) (m : HashMap K V)
      → get j (update k default change m)
        ≡ (if e.beq k j then some (change (get_or (get k m) default)) else get j m)
  unfolding get update
  get-update k j default change [] = ground (arith, e.beq_iff k j, e.beq_iff k k)
  get-update k j default change ((i, w) ∷ m) = ground (
    arith,
    e.beq_iff k j,
    e.beq_iff i k,
    e.beq_iff i j,
    e.beq_iff k k,
    get-update k j default change m,
  )

-- The order in which a map yields its entries is open: any rearrangement of the entries.
pub record HashOrder (K V : Type 0) : Type 0 where
  pub arrange : HashMap K V → HashMap K V
  pub arrange-perm : (m : HashMap K V) → Perm (arrange m) m
