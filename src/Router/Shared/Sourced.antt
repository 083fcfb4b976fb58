-- ===== src/Router/Shared/Sourced.antt =====
-- Where the endpoints come from that concurrent calls on the router of src/router.rs cache and
-- return, and that none of the calls panics.
use incubator_horaedb_client.Prelude.{
  ℕ, zero, suc, ◌≡◌, ◌≢◌, ◌∙◌, refl, ap, subst, inl, inr, Option, none, some, List, [], ◌∷◌, ◌++◌,
  map, Text, text_eq, length, length-append, get_elem?, get_elem?-middle, replicate, arith, All,
  Option-cases,
}
use mathlib.Core.List.{append_assoc}
use incubator_horaedb_client.Prelude.HashMap
use incubator_horaedb_client.Prelude.HashMap.{HashMap, HashOrder}
use incubator_horaedb_client.Errors.{Result, ok, err}
use incubator_horaedb_client.Model.Route.{Endpoint}
use incubator_horaedb_client.RpcClient.{RpcContext, Route, RouteRequest, RouteResponse, RpcClient}
use incubator_horaedb_client.Router.{Cache, Targets}
use incubator_horaedb_client.Router.Shared.{
  Task, entering, scanning, filling, evicting, returned, evicted, panicked, Request, routing,
  eviction, begin, start, step, run, answered, request_for,
}
use incubator_horaedb_client.Router.Shared.Invariant.{IsInv, Keeps, run-IsInv}
use incubator_horaedb_client.Router.Shared.Named.{
  HasDatabase, routed_tables, IsNamed, CacheIsNamed, AreNamed, Indexes, replicate-AreNamed,
  set-AreNamed, insert-Indexes, Follows, fill_next, remove-CacheIsNamed,
}

-- The tables of the request at a position.
abbrev tables_at : List Request → ℕ → List Text
tables_at [] i = []
tables_at (q ∷ qs) zero = routed_tables q
tables_at (q ∷ qs) (suc i) = tables_at qs i

tables_at_lem :
    (requests : List Request) (i : ℕ) {ctx : RpcContext} {tables : List Text}
    → get_elem? requests i ≡ some (routing ctx tables)
    → tables_at requests i ≡ tables
tables_at_lem [] i h = cc
tables_at_lem (q ∷ qs) zero {ctx} {tables} h =
    ap (elim [ some q' ↦ routed_tables q' | none ↦ [] ]) h
tables_at_lem (q ∷ qs) (suc i) h = tables_at_lem qs i h

module _ (Named : Text → Endpoint → Type 0) (d : Endpoint) where
  begin-Follows :
      {X : Type 0} (requests : List Request)
      → All HasDatabase requests
      → (i : ℕ) (task : Task X) → get_elem? (map begin requests) i ≡ some task
      → Follows Named d (tables_at requests i) task
  begin-Follows [] h i task at = cc
  begin-Follows {X} (routing ctx tables ∷ qs) (has, h) zero task at =
      let same : entering ctx tables ≡ task = cc at in
      subst (λ t. Follows Named d tables t) same (refl, has)
  begin-Follows (eviction tables ∷ qs) (has, h) zero task at =
      let same : evicting tables ≡ task = cc at in subst (λ t. Follows Named d [] t) same tt
  begin-Follows (q ∷ qs) (has, h) (suc i) task at = begin-Follows qs h i task at

  module _ {X W : Type 0} (order : HashOrder Text ℕ) (rpc : RpcClient X W) where
    -- Every endpoint in an answer of the server is one that may be named for its table.
    abbrev pub AnswersAreNamed : Type 0
    AnswersAreNamed =
        (ctx : RpcContext) (req : RouteRequest) (w w' : W) (resp : RouteResponse)
        → rpc.route ctx req w ≡ (ok resp, w')
        → All (IsNamed Named) resp.routes

    module _ (honest : AnswersAreNamed) where
      answered-Follows :
          (tables : List Text) (misses : HashMap Text ℕ) (targets : Targets) (cache : Cache)
          (ctx : RpcContext) (req : RouteRequest) (w : W)
          → AreNamed Named d tables targets
          → Indexes Named d tables misses
          → CacheIsNamed Named cache
          → CacheIsNamed Named (answered misses targets cache (rpc.route ctx req w)).1
            × Follows Named d {X = X} tables (answered misses targets cache (rpc.route ctx req w)).0
      answered-Follows tables misses targets cache ctx req w a h c = go (rpc.route ctx req w) refl
        where
          go :
              (reply : Result X RouteResponse × W)
              → rpc.route ctx req w ≡ reply
              → CacheIsNamed Named (answered misses targets cache reply).1
                × Follows Named d {X = X} tables (answered misses targets cache reply).0
          go (err e, w') e_is = (c, tt)
          go (ok resp, w') e_is = (c, (a, h, honest ctx req w w' resp e_is))

      scan-Follows :
          (tables before ts : List Text) (t : Text) (idx : ℕ) (ctx : RpcContext) (database : Text)
          (targets : Targets) (misses : HashMap Text ℕ) (cache : Cache) (w : W)
          → before ++ t ∷ ts ≡ tables
          → length before ≡ idx
          → AreNamed Named d tables targets
          → Indexes Named d tables misses
          → CacheIsNamed Named cache
          → (λ (after : Task X × Cache × W).
                CacheIsNamed Named after.1 × Follows Named d tables after.0)
              (step order d rpc (scanning ctx database idx (t ∷ ts) targets misses) cache w)
      unfolding step
      scan-Follows tables before ts t idx ctx database targets misses cache w split l a h c =
          let here : get_elem? tables idx ≡ some t =
            subst (λ xs. get_elem? xs idx ≡ some t) split
              (subst (λ i. get_elem? (before ++ t ∷ ts) i ≡ some t) l
                (get_elem?-middle before t ts)) in
          let split' : (before ++ t ∷ []) ++ ts ≡ tables =
            append_assoc before (t ∷ []) ts ∙ split in
          let l' : length (before ++ t ∷ []) ≡ suc idx =
            omega (arith, length-append before (t ∷ [])) in
          elim (Option-cases (HashMap.get t cache)) [
            | inl miss ↦
                rw (miss, step)
                  (
                    c,
                    (
                      before ++ t ∷ [],
                      split',
                      l',
                      a,
                      insert-Indexes Named d tables misses t idx here h,
                    ),
                  )
            | inr (e, hit) ↦
                rw (hit, step)
                  (
                    c,
                    (
                      before ++ t ∷ [],
                      split',
                      l',
                      set-AreNamed Named d idx t e a here (c t e hit),
                      h,
                    ),
                  )
          ]

      enter-Follows :
          (ctx : RpcContext) (tables : List Text) (database : Option Text) (cache : Cache) (w : W)
          → database ≢ none
          → CacheIsNamed Named cache
          → (λ (after : Task X × Cache × W).
                CacheIsNamed Named after.1 × Follows Named d tables after.0)
              (elim database [
                | none ↦ (panicked, cache, w)
                | some db ↦
                    (scanning ctx db 0 tables (replicate (length tables) (some d)) [], cache, w)
              ])
      unfolding HashMap.get
      enter-Follows ctx tables none cache w named c = absurd (named refl)
      enter-Follows ctx tables (some db) cache w named c =
          (c, ([], refl, refl, replicate-AreNamed Named d tables, λ t k h. cc))

      step-Follows :
          (tables : ℕ → List Text)
          → Keeps order d rpc (CacheIsNamed Named) (λ i task. Follows Named d (tables i) task)
      unfolding step
      step-Follows tables i (entering ctx ts) cache w c (same, named) =
          subst
            (λ xs.
              CacheIsNamed Named (step order d rpc (entering ctx ts) cache w).1
              × Follows Named d xs (step order d rpc (entering ctx ts) cache w).0)
            same (enter-Follows ctx ts ctx.database cache w named c)
      step-Follows tables i (scanning ctx db idx [] targets misses) cache w c
            (before, split, l, a, h) =
          answered-Follows (tables i) misses targets cache ctx (request_for order db misses) w a h c
      step-Follows tables i (scanning ctx db idx (t ∷ ts) targets misses) cache w c
            (before, split, l, a, h) =
          scan-Follows (tables i) before ts t idx ctx db targets misses cache w split l a h c
      step-Follows tables i (filling misses [] targets) cache w c (a, h, n) = (c, a)
      step-Follows tables i (filling misses (r ∷ rs) targets) cache w c (a, h, (n, ns)) =
          elim (Option-cases r.endpoint) [
            | inl absent ↦ rw (absent, step) (c, (a, h, ns))
            | inr (pb, present) ↦ elim (Option-cases (HashMap.get r.table misses)) [
              | inl stray ↦ rw (present, stray, step) (c, tt)
              | inr (k, missed) ↦
                  rw (present, missed, step)
                    (fill_next Named d X (tables i) misses r rs targets cache pb k present missed a
                      h (n, ns) c)
            ]
          ]
      step-Follows tables i (evicting []) cache w c f = (c, tt)
      step-Follows tables i (evicting (t ∷ ts)) cache w c f =
          (remove-CacheIsNamed Named d t cache c, tt)
      step-Follows tables i (returned result) cache w c f = (c, f)
      step-Follows tables i evicted cache w c f = (c, f)
      step-Follows tables i panicked cache w c f = (c, f)

      run-Follows :
          (requests : List Request) (schedule : List ℕ) (cache : Cache) (w : W)
          → CacheIsNamed Named cache
          → All HasDatabase requests
          → IsInv
              (CacheIsNamed Named)
              (λ i task. Follows Named d (tables_at requests i) task)
              (run order d rpc schedule (start cache w requests))
      run-Follows requests schedule cache w c h =
          run-IsInv order d rpc (CacheIsNamed Named)
            (λ i task. Follows Named d (tables_at requests i) task)
            (step-Follows (tables_at requests)) schedule (start cache w requests)
            (record { shared = c; each = begin-Follows requests h })

      -- Calls that run at the same time, in any order of their turns: if what was cached at the start
      -- and every endpoint that the server answers are such as may be named for their tables, and
      -- every routing request has a database, then so is everything that is cached afterwards; and a
      -- call that has returned targets has one for each of its tables, which is the default endpoint
      -- or one that may be named for this table.
      pub run-sourced :
          (requests : List Request) (schedule : List ℕ) (cache : Cache) (w : W)
          → CacheIsNamed Named cache
          → All HasDatabase requests
          → CacheIsNamed Named (run order d rpc schedule (start cache w requests)).cache
            × ((i : ℕ) (ctx : RpcContext) (tables : List Text) (targets : Targets)
                → get_elem? requests i ≡ some (routing ctx tables)
                → get_elem? (run order d rpc schedule (start cache w requests)).tasks i
                  ≡ some (returned (ok targets))
                → AreNamed Named d tables targets)
      run-sourced requests schedule cache w c h =
          let inv = run-Follows requests schedule cache w c h in
          (
            inv.shared,
            λ i ctx tables targets asked done.
                subst (λ ts. AreNamed Named d ts targets) (tables_at_lem requests i asked)
                  (inv.each i (returned (ok targets)) done),
          )

module _ {X W : Type 0} (order : HashOrder Text ℕ) (d : Endpoint) (rpc : RpcClient X W) where
  all-IsNamed : (routes : List Route) → All (IsNamed (λ t e. Unit)) routes
  all-IsNamed [] = tt
  all-IsNamed (r ∷ rs) = (λ pb h. tt, all-IsNamed rs)

  -- Calls that run at the same time, in any order of their turns: if every routing request has a
  -- database, none of them panics, whatever was cached at the start and whatever the server answers.
  pub run-never_panics :
      (requests : List Request) (schedule : List ℕ) (cache : Cache) (w : W) (i : ℕ)
      → All HasDatabase requests
      → get_elem? (run order d rpc schedule (start cache w requests)).tasks i ≢ some panicked
  run-never_panics requests schedule cache w i h panic =
      (run-Follows (λ t e. Unit) d order rpc (λ ctx req w w' resp called. all-IsNamed resp.routes)
          requests schedule cache w (λ t e has. tt) h).each
        i panicked panic
