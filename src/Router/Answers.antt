-- ===== src/Router/Answers.antt =====
-- What `route` in src/router.rs returns for each table.
use incubator_horaedb_client.Prelude.{
  ℕ, ◌≡◌, ◌≢◌, ◌∙◌, refl, Option, none, some, List, ◌∷◌, ◌++◌, Text, text_eq, length, get_elem?,
  arith, All,
}
use incubator_horaedb_client.Prelude.HashMap
use incubator_horaedb_client.Prelude.HashMap.{HashMap, HashOrder}
use incubator_horaedb_client.Errors.{Result, ok}
use incubator_horaedb_client.RpcClient.{RpcContext, Route, RouteResponse}
use incubator_horaedb_client.Router.{Targets, RouterImpl, route_request, route, unknown_table}
use incubator_horaedb_client.Router.Fill.{answer, fill_misses-IsFilled, fill_misses-unknown}
use incubator_horaedb_client.Router.Found.{
  resolved, missed, WasMissed, found, found-misses, length-found, found_bounds, known, answered_lem,
}

module _ {X W : Type 0} (order : HashOrder Text ℕ) (r : RouterImpl X W) (tables : List Text) where
  -- The result of a call whose answers the router accepts.
  pub record Routed (routes : List Route) (w' : W)
      (outcome : Option (Result X Targets × RouterImpl X W × W)) : Type 0 where
    pub targets : Targets
    pub router : RouterImpl X W
    pub kept : router ≡ record r { cache = router.cache }
    pub returned : outcome ≡ some (ok targets, router, w')
    pub sized : length targets ≡ length tables
    pub answered :
        (j : ℕ) (t : Text)
        → get_elem? tables j ≡ some t
        → get_elem? targets j ≡ some (resolved r.cache r.default_endpoint tables routes j t)
    pub cached : (t : Text) → HashMap.get t router.cache ≡ answer (HashMap.get t r.cache) t routes

  -- If the context names a database, the server answers, and every endpoint in its answer is for a
  -- table that was asked for and is not in the cache, then the call does not panic and succeeds with
  -- one target for each table, which `resolved` describes; afterwards the cache has, besides what it
  -- had, the last endpoint that the server named for each table.
  pub route-Routed :
      (ctx : RpcContext) (database : Text) (w w' : W) (resp : RouteResponse)
      → ctx.database ≡ some database
      → r.rpc_client.route ctx (route_request order r tables database) w ≡ (ok resp, w')
      → All (WasMissed r.cache tables) resp.routes
      → Routed resp.routes w' (route order r tables ctx w)
  unfolding route
  route-Routed ctx database w w' resp db called h =
      let f =
        fill_misses-IsFilled X (found r tables).1 resp.routes r.cache (found r tables).0
          (found_bounds r tables) (known r tables resp.routes h) in
      record {
        targets = f.result;
        router = record r { cache = f.cache' };
        kept = refl;
        returned = ground (arith, db, called, f.returned);
        sized = f.sized ∙ length-found r tables;
        answered = λ j t at. answered_lem r tables resp.routes j t at f;
        cached = f.cached;
      }

  -- If the context names a database, the server answers, and the first endpoint in its answer that
  -- is for a table not missed follows the routes `before`, then the call fails with the error that
  -- names the table; the cache has, besides what it had, the endpoints of the routes before it.
  pub route-unknown :
      (ctx : RpcContext) (database : Text) (w w' : W) (resp : RouteResponse) (before : List Route)
      (bad : Route) (after : List Route)
      → ctx.database ≡ some database
      → r.rpc_client.route ctx (route_request order r tables database) w ≡ (ok resp, w')
      → resp.routes ≡ before ++ bad ∷ after
      → All (WasMissed r.cache tables) before
      → bad.endpoint ≢ none
      → missed r.cache tables bad.table ≡ none
      → (r' : RouterImpl X W) × (route order r tables ctx w
          ≡ some (unknown_table bad.table, r', w'))
        × ((t : Text) → HashMap.get t r'.cache ≡ answer (HashMap.get t r.cache) t before)
  unfolding route
  route-unknown ctx database w w' resp before bad after db called split h present m =
      let (c, returned, cached) =
        fill_misses-unknown X (found r tables).1 before bad after r.cache (found r tables).0
          (found_bounds r tables) (known r tables before h) present
          (found-misses r tables bad.table ∙ m) in
      (record r { cache = c }, ground (arith, db, called, split, returned), cached)
