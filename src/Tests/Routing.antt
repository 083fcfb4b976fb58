-- ===== src/Tests/Routing.antt =====
-- Tests of src/router.rs with the client of src/rpc_client/mock_rpc_client.rs.
use incubator_horaedb_client.Prelude.{
  ℕ, ◌≢◌, ◌≡◌, refl, none, some, List, [], ◌∷◌, Text, text, text_eq, text_beq, get_elem?,
}
use mathlib.Core.List.Perm
use incubator_horaedb_client.Prelude.HashMap
use incubator_horaedb_client.Prelude.HashMap.{HashMap, HashOrder}
use incubator_horaedb_client.Errors.{ok, err, no_database}
use incubator_horaedb_client.Model.Route.{Endpoint}
use incubator_horaedb_client.RpcClient.{RpcContext, Route, RouteResponse, RpcClient}
use incubator_horaedb_client.RpcClient.Mock
use incubator_horaedb_client.Router.{Cache, RouterImpl, route_request, route, evict, unknown_table}
use incubator_horaedb_client.Router.Fill.{answer}
use incubator_horaedb_client.Router.Answers.{Routed, route-Routed, route-unknown}
use incubator_horaedb_client.Router.Routes.{route_all_some}
use incubator_horaedb_client.Router.Evict.{evict-route, repeated_table}

abbrev in_order : HashOrder Text ℕ
in_order = record { arrange = λ m. m; arrange-perm = λ m. Perm.refl m }

abbrev World : Type 0
World = HashMap Text Endpoint

abbrev mock_client : RpcClient Text World
mock_client = record {
  sql_query = λ ctx req w. (err no_database, w);
  write = λ ctx req w. (err no_database, w);
  route = Mock.route;
}

abbrev at_port : ℕ → Endpoint
at_port port = record { addr = text "h"; port = port }

abbrev route_table : World
route_table = (text "a", at_port 1) ∷ (text "b", at_port 2) ∷ []

abbrev router : Cache → RouterImpl Text World
router cache = record { default_endpoint = at_port 9; cache = cache; rpc_client = mock_client }

abbrev ctx : RpcContext
ctx = record { database = some (text "db"); timeout = none }

abbrev route_to : Text → ℕ → Route
route_to table port = record {
  table = table;
  endpoint = some (record { ip = text "h"; port = port });
}

abbrev tables : List Text
tables = text "a" ∷ text "c" ∷ text "a" ∷ text "b" ∷ []

abbrev routes : List Route
routes = route_to (text "a") 1 ∷ route_to (text "b") 2 ∷ []

abbrev response : RouteResponse
response = record { header = none; routes = routes }

answered :
    mock_client.route ctx (route_request in_order (router []) tables (text "db")) route_table
    ≡ (ok response, route_table)
unfolding Mock.route route_request HashMap.get HashMap.insert text_beq
answered = refl

route-Routed_example :
    Routed in_order
      (router [])
      tables
      routes
      route_table
      (route in_order (router []) tables ctx route_table)
unfolding HashMap.get text_beq
route-Routed_example =
    route-Routed in_order (router []) tables ctx (text "db") route_table route_table response refl
      answered (λ h. (2, refl), (λ h. (3, refl), tt))

-- A call for a cached table, when the server knows nothing any more.
second :
    route in_order (router route_table) (text "b" ∷ []) ctx []
    ≡ some (ok (some (at_port 2) ∷ []), router route_table, [])
unfolding route HashMap.get HashMap.insert text_beq Mock.route
second = refl

abbrev moved : World
moved = (text "a", at_port 3) ∷ []

-- A call after an eviction, when the table has moved.
after_eviction :
    route in_order (evict (router route_table) (text "a" ∷ [])) (text "a" ∷ []) ctx moved
    ≡ some (
      ok (some (at_port 3) ∷ []),
      router ((text "b", at_port 2) ∷ (text "a", at_port 3) ∷ []),
      moved,
    )
unfolding route evict HashMap.get HashMap.insert HashMap.remove text_beq Mock.route
after_eviction = refl

evict-route_example :
    (database : Text) × (resp : RouteResponse) × (mock_client.route ctx
        (route_request in_order
          (evict (router route_table) (text "a" ∷ []))
          (text "a" ∷ [])
          database)
        moved
      ≡ (ok resp, moved))
    × (get_elem? (some (at_port 3) ∷ []) 0
        ≡ some (answer (some (at_port 9)) (text "a") resp.routes))
unfolding text_beq
evict-route_example =
    evict-route in_order (text "a" ∷ []) ctx moved moved (some (at_port 3) ∷ [])
      (router route_table) (router ((text "b", at_port 2) ∷ (text "a", at_port 3) ∷ []))
      (text "a" ∷ []) 0 (text "a") after_eviction refl refl refl

first :
    route in_order (router []) tables ctx route_table
    ≡ some (
      ok (some (at_port 9) ∷ some (at_port 9) ∷ some (at_port 1) ∷ some (at_port 2) ∷ []),
      router route_table,
      route_table,
    )
unfolding route HashMap.get HashMap.insert text_beq Mock.route
first = refl

repeated_table_example :
    get_elem? (some (at_port 9) ∷ some (at_port 9) ∷ some (at_port 1) ∷ some (at_port 2) ∷ []) 0
    ≡ some (some (at_port 9))
unfolding HashMap.get text_beq
repeated_table_example =
    repeated_table in_order tables ctx route_table route_table
      (some (at_port 9) ∷ some (at_port 9) ∷ some (at_port 1) ∷ some (at_port 2) ∷ []) (router [])
      (router route_table) 0 (text "a") first refl refl refl

-- A server that answers for a table that nobody asked for.
abbrev stray_response : RouteResponse
stray_response = record {
  header = none;
  routes = route_to (text "a") 1 ∷ route_to (text "x") 2 ∷ route_to (text "b") 3 ∷ [];
}

abbrev stray_router : RouterImpl Text World
stray_router = record (router []) {
  rpc_client = record mock_client { route = λ c req w. (ok stray_response, w) };
}

route-unknown_example :
    (r' : RouterImpl Text World) × (route in_order stray_router tables ctx []
      ≡ some (unknown_table (text "x"), r', []))
    × ((t : Text)
        → HashMap.get t r'.cache
          ≡ answer (HashMap.get t stray_router.cache) t (route_to (text "a") 1 ∷ []))
unfolding HashMap.get text_beq
route-unknown_example =
    route-unknown in_order stray_router tables ctx (text "db") [] [] stray_response
      (route_to (text "a") 1 ∷ []) (route_to (text "x") 2) (route_to (text "b") 3 ∷ []) refl refl
      refl (λ h. (2, refl), tt) (λ e. cc) refl

route_all_some_example : some (at_port 9) ≢ none
route_all_some_example =
    route_all_some in_order (router []) (router route_table) tables ctx route_table route_table
      (some (at_port 9) ∷ some (at_port 9) ∷ some (at_port 1) ∷ some (at_port 2) ∷ []) 1
      (some (at_port 9)) first refl
