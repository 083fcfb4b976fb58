-- ===== src/Router.antt =====
-- src/router.rs: tables are routed to endpoints through a cache.
pub mod Scan
pub mod Fill
pub mod Found
pub mod Answers
pub mod Total
pub mod Sound
pub mod Routes
pub mod Evict
pub mod Shared
pub mod Mocked
use incubator_horaedb_client.Prelude.{
  ℕ, zero, suc, Option, none, some, List, [], ◌∷◌, ◌++◌, Text, text, text_eq, length, set,
  replicate, ltb, if◌then◌else◌,
}
use incubator_horaedb_client.Prelude.HashMap
use incubator_horaedb_client.Prelude.HashMap.{HashMap, HashOrder}
use incubator_horaedb_client.Errors.{Result, ok, err, unknown}
use incubator_horaedb_client.Model.Route.{Endpoint, EndpointPb, from_pb}
use incubator_horaedb_client.RpcClient.{RpcContext, RouteRequest, Route, RouteResponse, RpcClient}

abbrev pub Cache : Type 0
Cache = HashMap Text Endpoint

abbrev pub Targets : Type 0
Targets = List (Option Endpoint)

pub record RouterImpl (X W : Type 0) : Type 0 where
  pub default_endpoint : Endpoint
  pub cache : Cache
  pub rpc_client : RpcClient X W

unfoldable pub new : {X W : Type 0} → Endpoint → RpcClient X W → RouterImpl X W
new default_endpoint rpc_client = record {
  default_endpoint = default_endpoint;
  cache = [];
  rpc_client = rpc_client;
}

-- The loop that answers from the cache: hits are written to the targets, misses are collected with
-- their index. A table that occurs twice keeps its last index.
unfoldable pub find_cached :
    Cache → ℕ → List Text → Targets → HashMap Text ℕ → Targets × HashMap Text ℕ
find_cached cache idx [] targets misses = (targets, misses)
find_cached cache idx (table ∷ tables) targets misses = elim (HashMap.get table cache) [
  | some e ↦ find_cached cache (suc idx) tables (set targets idx (some e)) misses
  | none ↦ find_cached cache (suc idx) tables targets (HashMap.insert table idx misses)
]

-- The cache and the targets, or the error, after the answers of the server. `none` is a panic.
pub record Filled (X : Type 0) : Type 0 where
  pub cache : Cache
  pub outcome : Result X Targets

abbrev pub unknown_table : {X : Type 0} → Text → Result X Targets
unknown_table table = err (unknown (text "Unknown table:" ++ (table ++ text " in response")))

-- The loop over the routes of the response.
unfoldable pub fill_misses :
    {X : Type 0} → HashMap Text ℕ → List Route → Cache → Targets → Option (Filled X)
unfolding from_pb
fill_misses misses [] cache targets = some (record { cache = cache; outcome = ok targets })
fill_misses {X} misses (route ∷ routes) cache targets = elim route.endpoint [
  | none ↦ fill_misses misses routes cache targets
  | some pb ↦ elim (HashMap.get route.table misses) [
    | none ↦ some (record { cache = cache; outcome = unknown_table route.table })
    | some idx ↦
        let next =
          fill_misses {X = X} misses routes (HashMap.insert route.table (from_pb pb) cache)
            (set targets idx (some (from_pb pb))) in
        if ltb idx (length targets) then next else none
  ]
]

abbrev keys : HashMap Text ℕ → List Text
keys [] = []
keys ((table, idx) ∷ m) = table ∷ keys m

module _ {X W : Type 0} (order : HashOrder Text ℕ) where
  -- What `route` knows when it calls the server: the targets so far, the misses and the request.
  unfoldable pub route_request : RouterImpl X W → List Text → Text → RouteRequest
  unfolding find_cached
  route_request r tables database =
      let found =
        find_cached r.cache 0 tables (replicate (length tables) (some r.default_endpoint)) [] in
      record {
        context = some (record { database = database });
        tables = keys (order.arrange found.1);
      }

  abbrev after_call :
      RouterImpl X W
      → List Text
      → Result X RouteResponse × W
      → Option (Result X Targets × RouterImpl X W × W)
  after_call r tables (err e, w) = some (err e, r, w)
  after_call r tables (ok resp, w) =
      let found =
        find_cached r.cache 0 tables (replicate (length tables) (some r.default_endpoint)) [] in
      elim (fill_misses {X = X} found.1 resp.routes r.cache found.0) [
        | none ↦ none
        | some filled ↦ some (filled.outcome, record r { cache = filled.cache }, w)
      ]

  -- `RouterImpl::route`, run with no other use of the cache in between; `none` is a panic, that of
  -- the assertion included.
  unfoldable pub route :
      RouterImpl X W → List Text → RpcContext → W → Option (Result X Targets × RouterImpl X W × W)
  unfolding route_request find_cached fill_misses
  route r tables ctx w = elim ctx.database [
    | none ↦ none
    | some database ↦
        after_call r tables (r.rpc_client.route ctx (route_request r tables database) w)
  ]

-- `RouterImpl::evict` on the cache, and on the router.
unfoldable pub evict_all : Cache → List Text → Cache
evict_all cache [] = cache
evict_all cache (table ∷ tables) = evict_all (HashMap.remove table cache) tables

unfoldable pub evict : {X W : Type 0} → RouterImpl X W → List Text → RouterImpl X W
unfolding evict_all
evict r tables = record r { cache = evict_all r.cache tables }
