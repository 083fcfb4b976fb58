-- ===== src/Router/Fill.antt =====
-- What the second loop of `route` in src/router.rs makes of the server's answers.
use incubator_horaedb_client.Prelude.{
  ℕ, ◌<◌, ◌≡◌, ◌≢◌, ◌∙◌, refl, ap, subst, Option, none, some, List, [], ◌∷◌, ◌++◌, Text, text_beq,
  text_beq_iff, text_eq, length, length-set, get_elem?, get_elem?-set_self, get_elem?-set_ne, set,
  if◌then◌else◌, arith, Option-cases, inl, inr, All,
}
use native.Mathlib.Decide.{ℕ_discrete}
use incubator_horaedb_client.Prelude.HashMap
use incubator_horaedb_client.Prelude.HashMap.{HashMap}
use incubator_horaedb_client.Errors.{ok}
use incubator_horaedb_client.Model.Route.{Endpoint, EndpointPb, from_pb}
use incubator_horaedb_client.RpcClient.{Route}
use incubator_horaedb_client.Router.{Cache, Targets, fill_misses, unknown_table}

-- The endpoint of a route, or what was known before.
abbrev pub route_or : Option Endpoint → Route → Option Endpoint
route_or old r = elim r.endpoint [ none ↦ old | some pb ↦ some (from_pb pb) ]

-- The endpoint that the last route of a table names, or what was known before.
abbrev pub answer : Option Endpoint → Text → List Route → Option Endpoint
answer old t [] = old
answer old t (r ∷ rs) = answer (if text_beq r.table t then route_or old r else old) t rs

-- The route names no endpoint, or its table is one of the misses.
abbrev pub IsKnown : HashMap Text ℕ → Route → Type 0
IsKnown misses r = (r.endpoint ≢ none) → (k : ℕ) × (HashMap.get r.table misses ≡ some k)

module _ (X : Type 0) (misses : HashMap Text ℕ) where
  -- The loop ends well, with these targets and this cache.
  pub record IsFilled (routes : List Route) (cache : Cache) (targets : Targets) : Type 0 where
    pub result : Targets
    pub cache' : Cache
    pub returned :
        fill_misses {X = X} misses routes cache targets
        ≡ some (record { cache = cache'; outcome = ok result })
    pub sized : length result ≡ length targets
    pub cached : (t : Text) → HashMap.get t cache' ≡ answer (HashMap.get t cache) t routes
    pub untouched :
        (j : ℕ)
        → ((t : Text) → HashMap.get t misses ≢ some j)
        → get_elem? result j ≡ get_elem? targets j
    pub answered :
        (j : ℕ) (t : Text) (old : Option Endpoint)
        → HashMap.get t misses ≡ some j
        → ((t' : Text) → HashMap.get t' misses ≡ some j → t' ≡ t)
        → get_elem? targets j ≡ some old
        → get_elem? result j ≡ some (answer old t routes)

module _ (X : Type 0) (misses : HashMap Text ℕ) where
  -- A route without an endpoint is passed over.
  skip :
      (r : Route) (rs : List Route) (cache : Cache) (targets : Targets)
      → r.endpoint ≡ none
      → IsFilled X misses rs cache targets
      → IsFilled X misses (r ∷ rs) cache targets
  unfolding fill_misses
  skip r rs cache targets e f = record {
    result = f.result;
    cache' = f.cache';
    returned = rw e f.returned;
    sized = f.sized;
    cached = λ t. ground (arith, e, f.cached t);
    untouched = f.untouched;
    answered = λ j t old m u k. ground (arith, e, f.answered j t old m u k);
  }

  -- A route with an endpoint of a missed table is written to the cache and to its target.
  take :
      (r : Route) (rs : List Route) (cache : Cache) (targets : Targets) (pb : EndpointPb) (k : ℕ)
      → r.endpoint ≡ some pb
      → HashMap.get r.table misses ≡ some k
      → k < length targets
      → IsFilled X misses rs
          (HashMap.insert r.table (from_pb pb) cache)
          (set targets k (some (from_pb pb)))
      → IsFilled X misses (r ∷ rs) cache targets
  unfolding fill_misses
  take r rs cache targets pb k e m b f = record {
    result = f.result;
    cache' = f.cache';
    returned = ground (arith, e, m, b, f.returned);
    sized = f.sized ∙ length-set targets k _;
    cached = λ t. ground (arith, e, f.cached t, HashMap.get-insert r.table t (from_pb pb) cache);
    untouched = λ j no_owner.
        f.untouched j no_owner
        ∙ get_elem?-set_ne targets k j (some (from_pb pb))
            (λ same. no_owner r.table (m ∙ ap some same));
    answered = λ j t old owned unique h. elim (ℕ_discrete k j) [
      | yes same ↦ ground (
        arith,
        e,
        f.answered j t (some (from_pb pb)) owned unique (
            subst (λ i. get_elem? (set targets k (some (from_pb pb))) i ≡ some (some (from_pb pb)))
              same (get_elem?-set_self targets k (some (from_pb pb)) b)),
        text_beq_iff r.table t,
        unique r.table (m ∙ ap some same),
      )
      | no differ ↦ ground (
        arith,
        e,
        f.answered j t old owned unique
            (get_elem?-set_ne targets k j (some (from_pb pb)) differ ∙ h),
        text_beq_iff r.table t,
        m,
        owned,
      )
    ];
  }

  pub fill_misses-IsFilled :
      (routes : List Route) (cache : Cache) (targets : Targets)
      → ((t : Text) (k : ℕ) → HashMap.get t misses ≡ some k → k < length targets)
      → All (IsKnown misses) routes
      → IsFilled X misses routes cache targets
  fill_misses-IsFilled [] cache targets b h = record {
    result = targets;
    cache' = cache;
    returned = unfold fill_misses in refl;
    sized = refl;
    cached = λ t. refl;
    untouched = λ j k. refl;
    answered = λ j t old m u k. k;
  }
  fill_misses-IsFilled (r ∷ rs) cache targets b (known, h) = elim (Option-cases r.endpoint) [
    | inl absent ↦ skip r rs cache targets absent (fill_misses-IsFilled rs cache targets b h)
    | inr (pb, present) ↦
        let (k, m) = known (λ absent. cc) in
        take r rs cache targets pb k present m (b r.table k m) (
          fill_misses-IsFilled rs (HashMap.insert r.table (from_pb pb) cache)
            (set targets k (some (from_pb pb))) (λ t i p. rw length-set (b t i p)) h)
  ]

  -- At the first route with an endpoint for a table that was not missed, the loop stops with an
  -- error; the cache keeps the endpoints of the routes before it.
  pub fill_misses-unknown :
      (before : List Route) (r : Route) (after : List Route) (cache : Cache) (targets : Targets)
      → ((t : Text) (k : ℕ) → HashMap.get t misses ≡ some k → k < length targets)
      → All (IsKnown misses) before
      → r.endpoint ≢ none
      → HashMap.get r.table misses ≡ none
      → (cache' : Cache) × (fill_misses {X = X} misses (before ++ r ∷ after) cache targets
          ≡ some (record { cache = cache'; outcome = unknown_table r.table }))
        × ((t : Text) → HashMap.get t cache' ≡ answer (HashMap.get t cache) t before)
  unfolding fill_misses
  fill_misses-unknown [] r after cache targets b h e m = elim (Option-cases r.endpoint) [
    | inl absent ↦ absurd (e absent)
    | inr (pb, present) ↦ (cache, ground (arith, present, m), λ t. refl)
  ]
  fill_misses-unknown (x ∷ xs) r after cache targets b (known, h) e m =
      elim (Option-cases x.endpoint) [
        | inl absent ↦
            let (c, returned, cached) = fill_misses-unknown xs r after cache targets b h e m in
            (c, ground (arith, absent, returned), λ t. ground (arith, absent, cached t))
        | inr (pb, present) ↦
            let (k, found) = known (λ absent. cc) in
            let (c, returned, cached) =
              fill_misses-unknown xs r after (HashMap.insert x.table (from_pb pb) cache)
                (set targets k (some (from_pb pb))) (λ t i p. rw length-set (b t i p)) h e m in
            (
              c,
              ground (arith, present, found, b x.table k found, returned),
              λ t.
                  ground
                    (arith, present, cached t, HashMap.get-insert x.table t (from_pb pb) cache),
            )
      ]
