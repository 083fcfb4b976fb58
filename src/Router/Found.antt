-- ===== src/Router/Found.antt =====
-- What `route` in src/router.rs answers at each position, once both loops are done.
use incubator_horaedb_client.Prelude.{
  ℕ, ◌<◌, ◌≡◌, ◌≢◌, ◌∙◌, refl, sym, ap, subst, Bool, false, Option, none, some, List, [], Text,
  text_eq, length, get_elem?, get_elem?-lt, replicate, true, Bool-cases, ◌==◌, if◌then◌else◌, arith,
  All, All-map, Option-cases, inl, inr,
}
use native.Mathlib.Nat.{zero-add}
use incubator_horaedb_client.Prelude.HashMap
use incubator_horaedb_client.Prelude.HashMap.{HashMap, HashOrder}
use incubator_horaedb_client.Model.Route.{Endpoint}
use incubator_horaedb_client.RpcClient.{Route}
use incubator_horaedb_client.Router.{Cache, Targets, RouterImpl, find_cached}
use incubator_horaedb_client.Router.Scan.{
  cached_or, last_index, scanned, find_cached-targets, find_cached-misses, get_elem?-scanned,
  length-scanned, last_index_sound,
}
use incubator_horaedb_client.Router.Fill.{answer, IsKnown, IsFilled}

-- `j` is the last index of the table.
abbrev pub is_last : ℕ → Text → List Text → Bool
is_last j t tables = elim (last_index 0 t tables none) [ none ↦ false | some k ↦ k == j ]

-- The endpoint of the table at position `j`: its cached endpoint, else the last endpoint that the
-- server names for it if the table does not occur again later, else the default endpoint.
abbrev pub resolved : Cache → Endpoint → List Text → List Route → ℕ → Text → Option Endpoint
resolved cache default tables routes j t = elim (HashMap.get t cache) [
  | some e ↦ some e
  | none ↦ if is_last j t tables then answer (some default) t routes else some default
]

-- The misses of a call, as their lookup.
abbrev pub missed : Cache → List Text → Text → Option ℕ
missed cache tables t = elim (HashMap.get t cache) [
  | some e ↦ none
  | none ↦ last_index 0 t tables none
]

-- The route names no endpoint, or its table was asked for and is not in the cache.
abbrev pub WasMissed : Cache → List Text → Route → Type 0
WasMissed cache tables r = (r.endpoint ≢ none) → (k : ℕ) × (missed cache tables r.table ≡ some k)

missed-last_index :
    (cache : Cache) (tables : List Text) (t : Text) {k : ℕ}
    → missed cache tables t ≡ some k
    → (HashMap.get t cache ≡ none) × (last_index 0 t tables none ≡ some k)
missed-last_index cache tables t h = ground arith

missed_sound :
    (cache : Cache) (tables : List Text) (t : Text) {k : ℕ}
    → missed cache tables t ≡ some k
    → get_elem? tables k ≡ some t
missed_sound cache tables t {k} h =
    elim (last_index_sound 0 t tables none (missed-last_index cache tables t h).1) [
      | inl impossible ↦ cc
      | inr (j, place, found) ↦
          subst (λ i. get_elem? tables i ≡ some t) (sym (place ∙ zero-add j)) found
    ]

module _ {X W : Type 0} (r : RouterImpl X W) (tables : List Text) where
  abbrev pub found : Targets × HashMap Text ℕ
  found = find_cached r.cache 0 tables (replicate (length tables) (some r.default_endpoint)) []

  found-targets : found.0 ≡ scanned r.cache (some r.default_endpoint) tables
  found-targets =
      find_cached-targets r.cache (some r.default_endpoint) [] tables 0
        (replicate (length tables) (some r.default_endpoint)) [] refl refl

  pub found-misses : (t : Text) → HashMap.get t found.1 ≡ missed r.cache tables t
  unfolding HashMap.get
  found-misses t =
      find_cached-misses r.cache t tables 0 (replicate (length tables) (some r.default_endpoint)) []

  pub length-found : length found.0 ≡ length tables
  length-found = ap length found-targets ∙ length-scanned r.cache (some r.default_endpoint) tables

  pub found_bounds : (t : Text) (k : ℕ) → HashMap.get t found.1 ≡ some k → k < length found.0
  found_bounds t k h = omega (
    arith,
    length-found,
    get_elem?-lt tables k (missed_sound r.cache tables t (sym (found-misses t) ∙ h)),
  )

  pub known :
      (routes : List Route) → All (WasMissed r.cache tables) routes → All (IsKnown found.1) routes
  known routes h =
      All-map (WasMissed r.cache tables) (IsKnown found.1) routes
        (λ route was present. let (k, m) = was present in (k, found-misses route.table ∙ m)) h

  -- Position `j` holds the table `t`; a miss with this index is a miss of `t`.
  owner :
      (j : ℕ) (t t' : Text)
      → get_elem? tables j ≡ some t
      → HashMap.get t' found.1 ≡ some j
      → (t' ≡ t) × (HashMap.get t r.cache ≡ none) × (last_index 0 t tables none ≡ some j)
  owner j t t' at h =
      let m = sym (found-misses t') ∙ h in
      let same : t' ≡ t = cc (sym (missed_sound r.cache tables t' m) ∙ at) in
      let (uncached, last) = missed-last_index r.cache tables t' m in
      (
        same,
        subst (λ u. HashMap.get u r.cache ≡ none) same uncached,
        subst (λ u. last_index 0 u tables none ≡ some j) same last,
      )

  target_before :
      (j : ℕ) (t : Text)
      → get_elem? tables j ≡ some t
      → get_elem? found.0 j ≡ some (cached_or (HashMap.get t r.cache) (some r.default_endpoint))
  target_before j t at =
      ap (λ ts. get_elem? ts j) found-targets
      ∙ get_elem?-scanned r.cache (some r.default_endpoint) tables j at

  last_is_missed :
      (j : ℕ) (t : Text)
      → HashMap.get t r.cache ≡ none
      → is_last j t tables ≡ true
      → HashMap.get t found.1 ≡ some j
  last_is_missed j t uncached last = found-misses t ∙ ground (arith, uncached, last)

  module _ (routes : List Route) (j : ℕ) (t : Text) (at : get_elem? tables j ≡ some t) where
    abbrev resolved_here : Option Endpoint
    resolved_here = resolved r.cache r.default_endpoint tables routes j t

    target_kept :
        (f : IsFilled X found.1 routes r.cache found.0)
        → ((t' : Text) → HashMap.get t' found.1 ≢ some j)
        → get_elem? f.result j ≡ some (cached_or (HashMap.get t r.cache) (some r.default_endpoint))
    target_kept f no_owner = f.untouched j no_owner ∙ target_before j t at

    answered_hit :
        (f : IsFilled X found.1 routes r.cache found.0) (e : Endpoint)
        → HashMap.get t r.cache ≡ some e
        → get_elem? f.result j ≡ some resolved_here
    answered_hit f e hit =
        ground (arith, hit, target_kept f (λ t' h. let (_, uncached, _) = owner j t t' at h in cc))

    answered_last :
        (f : IsFilled X found.1 routes r.cache found.0)
        → HashMap.get t r.cache ≡ none
        → is_last j t tables ≡ true
        → get_elem? f.result j ≡ some resolved_here
    answered_last f miss last = ground (
      arith,
      miss,
      last,
      f.answered j t (some r.default_endpoint) (last_is_missed j t miss last)
          (λ t' h. (owner j t t' at h).0)
          (target_before j t at ∙ ap (λ o. some (cached_or o (some r.default_endpoint))) miss),
    )

    answered_earlier :
        (f : IsFilled X found.1 routes r.cache found.0)
        → HashMap.get t r.cache ≡ none
        → is_last j t tables ≡ false
        → get_elem? f.result j ≡ some resolved_here
    answered_earlier f miss earlier = ground (
      arith,
      miss,
      earlier,
      target_kept f (λ t' h. let (_, _, last) = owner j t t' at h in ground (arith, last)),
    )

    pub answered_lem :
        (f : IsFilled X found.1 routes r.cache found.0) → get_elem? f.result j ≡ some resolved_here
    answered_lem f = elim (Option-cases (HashMap.get t r.cache)) [
      | inr (e, hit) ↦ answered_hit f e hit
      | inl miss ↦ elim (Bool-cases (is_last j t tables)) [
        | inl last ↦ answered_last f miss last
        | inr earlier ↦ answered_earlier f miss earlier
      ]
    ]
