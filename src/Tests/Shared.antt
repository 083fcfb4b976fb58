-- ===== src/Tests/Shared.antt =====
-- Tests of calls that run at the same time on the router of src/router.rs.
use incubator_horaedb_client.Prelude.{
  ℕ, suc, subst, ◌≤◌, ◌≡◌, ◌≢◌, refl, none, some, List, [], ◌∷◌, Text, text, text_eq, length,
  get_elem?, arith, All,
}
use mathlib.Core.List.Perm
use incubator_horaedb_client.Prelude.HashMap
use incubator_horaedb_client.Prelude.HashMap.{HashOrder}
use incubator_horaedb_client.Errors.{ok, err, no_database}
use incubator_horaedb_client.Model.Route.{Endpoint, from_pb}
use incubator_horaedb_client.RpcClient.{RpcContext, Route, RouteRequest, RouteResponse, RpcClient}
use incubator_horaedb_client.Router.{Targets}
use incubator_horaedb_client.Router.Shared.{
  Task, filling, entering, returned, evicted, panicked, Request, routing, eviction, start,
  request_for, run,
}
use incubator_horaedb_client.Router.Shared.Named.{HasDatabase, IsNamed, CacheIsNamed, AreNamed}
use incubator_horaedb_client.Router.Shared.Sourced.{AnswersAreNamed, run-sourced, run-never_panics}
use incubator_horaedb_client.Router.Shared.Finish.{AnswersAreBounded, IsEnd, run-ends}
use incubator_horaedb_client.Router.Shared.Serial.{serve, run-serve}
use incubator_horaedb_client.Router.Shared.Stale.{evict_too_early}

abbrev in_order : HashOrder Text ℕ
in_order = record { arrange = λ m. m; arrange-perm = λ m. Perm.refl m }

abbrev at_port : ℕ → Endpoint
at_port port = record { addr = text "h"; port = port }

abbrev route_to_one : Text → Route
route_to_one table = record { table = table; endpoint = some (record { ip = text "h"; port = 1 }) }

-- A server that answers for the first table of a request only.
abbrev routes_for : List Text → List Route
routes_for [] = []
routes_for (t ∷ ts) = route_to_one t ∷ []

abbrev response_for : RouteRequest → RouteResponse
response_for req = record { header = none; routes = routes_for req.tables }

abbrev server : RpcClient Text ℕ
server = record {
  sql_query = λ ctx req w. (err no_database, w);
  write = λ ctx req w. (err no_database, w);
  route = λ ctx req w. (ok (response_for req), suc w);
}

abbrev ctx : RpcContext
ctx = record { database = some (text "db"); timeout = none }

abbrev a : Text
a = text "a"

-- Two calls for the table "a" and an eviction of it.
abbrev requests : List Request
requests = routing ctx (a ∷ []) ∷ eviction (a ∷ []) ∷ routing ctx (a ∷ []) ∷ []

abbrev IsOne : Text → Endpoint → Type 0
IsOne t e = e ≡ at_port 1

routes_for-IsOne : (tables : List Text) → All (IsNamed IsOne) (routes_for tables)
unfolding from_pb
routes_for-IsOne [] = tt
routes_for-IsOne (t ∷ ts) = (λ pb h. ground arith, tt)

server_is_honest : AnswersAreNamed IsOne (at_port 9) in_order server
server_is_honest ctx req w w' resp called =
    let same : response_for req ≡ resp = cc in
    subst (λ (r : RouteResponse). All (IsNamed IsOne) r.routes) same (routes_for-IsOne req.tables)

routes_for-le-one : (tables : List Text) → length (routes_for tables) ≤ 1
routes_for-le-one [] = omega arith
routes_for-le-one (t ∷ ts) = omega arith

server_is_bounded : AnswersAreBounded in_order (at_port 9) server 1
server_is_bounded ctx req w w' resp called =
    let same : response_for req ≡ resp = cc in
    subst (λ (r : RouteResponse). length r.routes ≤ 1) same (routes_for-le-one req.tables)

named : All HasDatabase requests
named = ((λ e. cc), (tt, ((λ e. cc), tt)))

-- The two calls ask the server, then one caches its answer, which is evicted, then the other does.
abbrev schedule : List ℕ
schedule = 0 ∷ 2 ∷ 0 ∷ 2 ∷ 0 ∷ 2 ∷ 0 ∷ 1 ∷ 2 ∷ 1 ∷ 0 ∷ 2 ∷ []

run-sourced_example :
    CacheIsNamed IsOne (run in_order (at_port 9) server schedule (start [] 0 requests)).cache
    × ((i : ℕ) (ctx : RpcContext) (tables : List Text) (targets : Targets)
        → get_elem? requests i ≡ some (routing ctx tables)
        → get_elem? (run in_order (at_port 9) server schedule (start [] 0 requests)).tasks i
          ≡ some (returned (ok targets))
        → AreNamed IsOne (at_port 9) tables targets)
unfolding HashMap.get
run-sourced_example =
    run-sourced IsOne (at_port 9) in_order server server_is_honest requests schedule [] 0
      (λ t e h. cc) named

run-never_panics_example :
    get_elem? (run in_order (at_port 9) server schedule (start [] 0 requests)).tasks 2
    ≢ some panicked
run-never_panics_example =
    run-never_panics in_order (at_port 9) server requests schedule [] 0 2 named

run-ends_example :
    (task : Task Text) × (get_elem?
        (run in_order (at_port 9) server schedule (start [] 0 requests)).tasks
        2
      ≡ some task)
    × IsEnd (routing ctx (a ∷ [])) task
run-ends_example =
    run-ends in_order (at_port 9) server 1 server_is_bounded requests schedule [] 0 2
      (routing ctx (a ∷ [])) named refl (omega arith)

run-serve_example :
    (schedule : List ℕ) × (run in_order (at_port 9) server schedule (start [] 0 requests)
      ≡ serve in_order (at_port 9) server [] 0 requests)
run-serve_example = run-serve in_order (at_port 9) server requests [] 0

evict_too_early_example :
    (run in_order (at_port 9) server (0 ∷ 0 ∷ 0 ∷ 1 ∷ 1 ∷ []) (start [] 0 requests) ≡ record {
      tasks =
          filling ((a, 0) ∷ []) (route_to_one a ∷ []) (some (at_port 9) ∷ [])
          ∷ evicted
          ∷ entering ctx (a ∷ [])
          ∷ [];
      cache = [];
      world = 1;
    })
    × (run in_order
          (at_port 9)
          server
          (0 ∷ 0 ∷ 0 ∷ 1 ∷ 1 ∷ 0 ∷ 0 ∷ 2 ∷ 2 ∷ 2 ∷ 2 ∷ [])
          (start [] 0 requests)
        ≡ record {
          tasks =
              returned (ok (some (at_port 1) ∷ []))
              ∷ evicted
              ∷ returned (ok (some (at_port 1) ∷ []))
              ∷ [];
          cache = (a, at_port 1) ∷ [];
          world = 2;
        })
unfolding from_pb
evict_too_early_example =
    evict_too_early in_order (at_port 9) server a ctx (text "db")
      (record { ip = text "h"; port = 1 })
      (response_for (request_for in_order (text "db") ((a, 0) ∷ [])))
      (response_for (request_for in_order (text "db") [])) 0 1 2 refl refl refl refl refl
