-- ===== src/Router/Evict.antt =====
-- How calls of `route` and `evict` in src/router.rs follow one another.
use incubator_horaedb_client.Prelude.{
  ℕ, ◌≡◌, refl, Bool, true, false, ◌||◌, none, some, List, [], ◌∷◌, Text, text_beq, text_beq_iff,
  text_eq, get_elem?, if◌then◌else◌, arith, All, Option-cases, inl, inr,
}
use incubator_horaedb_client.Prelude.HashMap
use incubator_horaedb_client.Prelude.HashMap.{HashOrder}
use incubator_horaedb_client.Errors.{ok}
use incubator_horaedb_client.Model.Route.{Endpoint}
use incubator_horaedb_client.RpcClient.{Route, RpcContext, RouteResponse}
use incubator_horaedb_client.Router.{
  Cache, Targets, RouterImpl, route_request, route, evict, evict_all,
}
use incubator_horaedb_client.Router.Fill.{answer}
use incubator_horaedb_client.Router.Found.{is_last, WasMissed}
use incubator_horaedb_client.Router.Sound.{route-Succeeded}

abbrev pub is_in : Text → List Text → Bool
is_in t [] = false
is_in t (x ∷ xs) = text_beq x t || is_in t xs

get-evict_all :
    (cache : Cache) (tables : List Text) (t : Text)
    → HashMap.get t (evict_all cache tables)
      ≡ (if is_in t tables then none else HashMap.get t cache)
unfolding evict_all
get-evict_all cache [] t = refl
get-evict_all cache (x ∷ xs) t =
    ground (arith, get-evict_all (HashMap.remove x cache) xs t, HashMap.get-remove x t cache)

answer_cached :
    (cache : Cache) (tables : List Text) (routes : List Route) (t : Text) (e : Endpoint)
    → HashMap.get t cache ≡ some e
    → All (WasMissed cache tables) routes
    → answer (some e) t routes ≡ some e
answer_cached cache tables [] t e has h = refl
answer_cached cache tables (q ∷ routes) t e has (was, h) = elim (Option-cases q.endpoint) [
  | inl absent ↦ ground (arith, absent, answer_cached cache tables routes t e has h)
  | inr (pb, present) ↦
      let (k, m) = was (λ absent. cc) in
      ground (arith, answer_cached cache tables routes t e has h, text_beq_iff q.table t, m, has)
]

module _ {X W : Type 0} where
  -- Eviction removes exactly the given tables from the cache.
  pub get-evict :
      (r : RouterImpl X W) (tables : List Text) (t : Text)
      → HashMap.get t (evict r tables).cache
        ≡ (if is_in t tables then none else HashMap.get t r.cache)
  unfolding evict
  get-evict r tables t = get-evict_all r.cache tables t

  module _ (order : HashOrder Text ℕ) (tables : List Text) (ctx : RpcContext) (w w' : W)
      (ts : Targets) where
    -- After an eviction, in a successful call the last occurrence of an evicted table gets the last
    -- endpoint that the server's answer names for it, or else the default endpoint; what was cached
    -- for it before plays no part.
    pub evict-route :
        (r r' : RouterImpl X W) (evicted : List Text) (j : ℕ) (t : Text)
        → route order (evict r evicted) tables ctx w ≡ some (ok ts, r', w')
        → is_in t evicted ≡ true
        → is_last j t tables ≡ true
        → get_elem? tables j ≡ some t
        → (database : Text) × (resp : RouteResponse) × (r.rpc_client.route ctx
              (route_request order (evict r evicted) tables database)
              w
            ≡ (ok resp, w'))
          × (get_elem? ts j ≡ some (answer (some r.default_endpoint) t resp.routes))
    unfolding evict
    evict-route r r' evicted j t h gone last at =
        let s = route-Succeeded order (evict r evicted) tables ctx w ts r' w' h in
        (
          s.database,
          s.response,
          s.called,
          ground (arith, s.same_targets, s.routed.answered j t at, get-evict_all r.cache evicted t),
        )

    -- If a table that is not in the cache occurs again later in the list, then in a successful call
    -- its earlier occurrence gets the default endpoint, whatever the server answers for the table.
    pub repeated_table :
        (r r' : RouterImpl X W) (j : ℕ) (t : Text)
        → route order r tables ctx w ≡ some (ok ts, r', w')
        → HashMap.get t r.cache ≡ none
        → is_last j t tables ≡ false
        → get_elem? tables j ≡ some t
        → get_elem? ts j ≡ some (some r.default_endpoint)
    repeated_table r r' j t h miss again at =
        let s = route-Succeeded order r tables ctx w ts r' w' h in
        ground (arith, s.same_targets, s.routed.answered j t at)
