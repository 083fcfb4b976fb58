-- ===== src/Router/Shared.antt =====
-- src/router.rs: calls of `route` and `evict` that run at the same time on one router. A turn of a
-- call ends after each access to the cache and after the call of the server.
pub mod Invariant
pub mod Named
pub mod Sourced
pub mod Kind
pub mod Finish
pub mod Alone
pub mod Serial
pub mod Stale
use incubator_horaedb_client.Prelude.{
  ℕ, suc, Option, none, some, List, [], ◌∷◌, map, Text, text_eq, length, get_elem?, set, replicate,
  ltb, if◌then◌else◌,
}
use incubator_horaedb_client.Prelude.HashMap
use incubator_horaedb_client.Prelude.HashMap.{HashMap, HashOrder}
use incubator_horaedb_client.Errors.{Result, ok, err}
use incubator_horaedb_client.Model.Route.{Endpoint, from_pb}
use incubator_horaedb_client.RpcClient.{RpcContext, RouteRequest, Route, RouteResponse, RpcClient}
use incubator_horaedb_client.Router.{Cache, Targets, keys, unknown_table}

-- Where a call stands, with the local variables that are live there.
pub data Task (X : Type 0) : Type 0 where
  -- Before the assertion of `route`.
  entering : (ctx : RpcContext) (tables : List Text) → Task X
  -- At the head of the first loop; after the last table comes the call of the server.
  scanning :
      (ctx : RpcContext) (database : Text) (idx : ℕ) (tables : List Text) (targets : Targets)
      (misses : HashMap Text ℕ)
      → Task X
  -- At the head of the second loop.
  filling : (misses : HashMap Text ℕ) (routes : List Route) (targets : Targets) → Task X
  -- At the head of the loop of `evict`.
  evicting : (tables : List Text) → Task X
  returned : Result X Targets → Task X
  evicted panicked : Task X

-- What a client asks of the router.
pub data Request : Type 0 where
  routing : (ctx : RpcContext) (tables : List Text) → Request
  eviction : (tables : List Text) → Request

abbrev pub begin : {X : Type 0} → Request → Task X
begin (routing ctx tables) = entering ctx tables
begin (eviction tables) = evicting tables

pub record System (X W : Type 0) : Type 0 where
  pub tasks : List (Task X)
  pub cache : Cache
  pub world : W

abbrev pub start : {X W : Type 0} → Cache → W → List Request → System X W
start cache w requests = record { tasks = map begin requests; cache = cache; world = w }

-- The request of a call whose first loop has ended.
abbrev pub request_for : HashOrder Text ℕ → Text → HashMap Text ℕ → RouteRequest
request_for order database misses = record {
  context = some (record { database = database });
  tables = keys (order.arrange misses);
}

abbrev pub answered :
    {X W : Type 0}
    → HashMap Text ℕ
    → Targets
    → Cache
    → Result X RouteResponse × W
    → Task X × Cache × W
answered misses targets cache (err e, w) = (returned (err e), cache, w)
answered misses targets cache (ok resp, w) = (filling misses resp.routes targets, cache, w)

module _ {X W : Type 0} (order : HashOrder Text ℕ) (default_endpoint : Endpoint)
    (rpc_client : RpcClient X W) where
  -- One turn of a call. An index outside the targets panics after the cache is written.
  unfoldable pub step : Task X → Cache → W → Task X × Cache × W
  unfolding from_pb
  step (entering ctx tables) cache w = elim ctx.database [
    | none ↦ (panicked, cache, w)
    | some database ↦
        let targets = replicate (length tables) (some default_endpoint) in
        (scanning ctx database 0 tables targets [], cache, w)
  ]
  step (scanning ctx database idx [] targets misses) cache w =
      answered misses targets cache (rpc_client.route ctx (request_for order database misses) w)
  step (scanning ctx database idx (table ∷ tables) targets misses) cache w =
      elim (HashMap.get table cache) [
        | some e ↦
            (scanning ctx database (suc idx) tables (set targets idx (some e)) misses, cache, w)
        | none ↦ (
          scanning ctx database (suc idx) tables targets (HashMap.insert table idx misses),
          cache,
          w,
        )
      ]
  step (filling misses [] targets) cache w = (returned (ok targets), cache, w)
  step (filling misses (route ∷ routes) targets) cache w = elim route.endpoint [
    | none ↦ (filling misses routes targets, cache, w)
    | some pb ↦ elim (HashMap.get route.table misses) [
      | none ↦ (returned (unknown_table route.table), cache, w)
      | some idx ↦ (
        if ltb idx (length targets)
            then filling misses routes (set targets idx (some (from_pb pb)))
            else panicked,
        HashMap.insert route.table (from_pb pb) cache,
        w,
      )
    ]
  ]
  step (evicting []) cache w = (evicted, cache, w)
  step (evicting (table ∷ tables)) cache w = (evicting tables, HashMap.remove table cache, w)
  step (returned result) cache w = (returned result, cache, w)
  step evicted cache w = (evicted, cache, w)
  step panicked cache w = (panicked, cache, w)

  -- A turn of the call at position `i`, and the turns of a schedule.
  unfoldable pub turn : ℕ → System X W → System X W
  unfolding step
  turn i s = elim (get_elem? s.tasks i) [
    | none ↦ s
    | some task ↦
        let (task', cache, w) = step task s.cache s.world in
        record { tasks = set s.tasks i task'; cache = cache; world = w }
  ]

  unfoldable pub run : List ℕ → System X W → System X W
  unfolding turn
  run [] s = s
  run (i ∷ schedule) s = run schedule (turn i s)
