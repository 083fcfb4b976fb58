-- ===== src/Router/Sound.antt =====
-- What a successful call of `route` in src/router.rs tells about the server's answer.
use incubator_horaedb_client.Prelude.{
  ℕ, ◌≡◌, ◌∙◌, sym, some, List, [], ◌∷◌, Text, text_eq, length, set, ltb, arith, All, All-map,
  Option-cases, Bool-cases, inl, inr,
}
use incubator_horaedb_client.Prelude.HashMap
use incubator_horaedb_client.Prelude.HashMap.{HashMap, HashOrder}
use incubator_horaedb_client.Errors.{Result, ok, err}
use incubator_horaedb_client.Model.Route.{from_pb}
use incubator_horaedb_client.RpcClient.{RpcContext, Route, RouteResponse}
use incubator_horaedb_client.Router.{
  Cache, Targets, RouterImpl, fill_misses, route_request, after_call, route,
}
use incubator_horaedb_client.Router.Fill.{IsKnown}
use incubator_horaedb_client.Router.Found.{WasMissed, found, found-misses}
use incubator_horaedb_client.Router.Answers.{Routed, route-Routed}

module _ (X : Type 0) (misses : HashMap Text ℕ) where
  fill_misses-IsKnown :
      (routes : List Route) (cache : Cache) (targets ts : Targets) (c : Cache)
      → fill_misses {X = X} misses routes cache targets
        ≡ some (record { cache = c; outcome = ok ts })
      → All (IsKnown misses) routes
  unfolding fill_misses
  fill_misses-IsKnown [] cache targets ts c h = tt
  fill_misses-IsKnown (r ∷ rs) cache targets ts c h = elim (Option-cases r.endpoint) [
    | inl absent ↦ (
      λ present. absurd (present absent),
      fill_misses-IsKnown rs cache targets ts c (ground (arith, absent)),
    )
    | inr (pb, present) ↦ elim (Option-cases (HashMap.get r.table misses)) [
      | inl stray ↦ absurd (ground (arith, present, stray))
      | inr (k, missed) ↦ elim (Bool-cases (ltb k (length targets))) [
        | inr outside ↦ absurd (ground (arith, present, missed, outside))
        | inl inside ↦ (
          λ p. (k, missed),
          fill_misses-IsKnown rs (HashMap.insert r.table (from_pb pb) cache)
              (set targets k (some (from_pb pb))) ts c (ground (arith, present, missed, inside)),
        )
      ]
    ]
  ]

module _ {X W : Type 0} (order : HashOrder Text ℕ) (r : RouterImpl X W) (tables : List Text)
    (ctx : RpcContext) (w : W) where
  -- The server's answer behind a successful call, and what the call made of it.
  pub record Succeeded (ts : Targets) (r' : RouterImpl X W) (w' : W) : Type 0 where
    pub database : Text
    pub response : RouteResponse
    pub named : ctx.database ≡ some database
    pub called :
        r.rpc_client.route ctx (route_request order r tables database) w ≡ (ok response, w')
    pub were_missed : All (WasMissed r.cache tables) response.routes
    pub routed : Routed order r tables response.routes w' (route order r tables ctx w)
    pub same_targets : routed.targets ≡ ts
    pub same_router : routed.router ≡ r'

  known_missed :
      (routes : List Route)
      → All (IsKnown (found r tables).1) routes
      → All (WasMissed r.cache tables) routes
  known_missed routes h =
      All-map (IsKnown (found r tables).1) (WasMissed r.cache tables) routes
        (λ q was p. let (k, m) = was p in (k, sym (found-misses r tables q.table) ∙ m)) h

  after_call-ok :
      (reply : Result X RouteResponse × W) (ts : Targets) (r' : RouterImpl X W) (w' : W)
      → after_call order r tables reply ≡ some (ok ts, r', w')
      → (resp : RouteResponse) × (reply ≡ (ok resp, w'))
        × All (WasMissed r.cache tables) resp.routes
  after_call-ok (err e, v) ts r' w' h = cc
  after_call-ok (ok resp, v) ts r' w' h =
      elim (Option-cases
        (fill_misses {X = X} (found r tables).1 resp.routes r.cache (found r tables).0)) [
          | inl panic ↦ absurd (ground (arith, panic))
          | inr (f, done) ↦ (
            resp,
            ground (arith, done),
            known_missed resp.routes (
                fill_misses-IsKnown X (found r tables).1 resp.routes r.cache (found r tables).0 ts
                  f.cache (ground (arith, done))),
          )
        ]

  pub route-Succeeded :
      (ts : Targets) (r' : RouterImpl X W) (w' : W)
      → route order r tables ctx w ≡ some (ok ts, r', w')
      → Succeeded ts r' w'
  unfolding route
  route-Succeeded ts r' w' h = elim (Option-cases ctx.database) [
    | inl missing ↦ absurd (ground (arith, missing))
    | inr (database, named) ↦
        let (resp, called, missed) =
          after_call-ok (r.rpc_client.route ctx (route_request order r tables database) w) ts r' w'
            (ground (arith, named)) in
        let routed = route-Routed order r tables ctx database w w' resp named called missed in
        record {
          database = database;
          response = resp;
          named = named;
          called = called;
          were_missed = missed;
          routed = routed;
          same_targets = ground (arith, routed.returned);
          same_router = ground (arith, routed.returned);
        }
  ]
