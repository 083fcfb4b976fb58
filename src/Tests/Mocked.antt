-- ===== src/Tests/Mocked.antt =====
-- The test of src/router.rs, with the client of src/rpc_client/mock_rpc_client.rs.
use incubator_horaedb_client.Prelude.{
  ℕ, ◌≡◌, refl, none, some, List, [], ◌∷◌, Text, text, text_eq, text_beq,
}
use mathlib.Core.List.Perm
use incubator_horaedb_client.Prelude.HashMap
use incubator_horaedb_client.Prelude.HashMap.{HashOrder}
use incubator_horaedb_client.Errors.{err, no_database}
use incubator_horaedb_client.Model.Route.{Endpoint}
use incubator_horaedb_client.RpcClient.{RpcContext, RpcClient}
use incubator_horaedb_client.RpcClient.Mock
use incubator_horaedb_client.Router.{RouterImpl, new}
use incubator_horaedb_client.Router.Mocked.{World, Action, changed, routed, evicted, perform, ideal}
use incubator_horaedb_client.Router.Mocked.Refines.{perform-ideal}

abbrev in_order : HashOrder Text ℕ
in_order = record { arrange = λ m. m; arrange-perm = λ m. Perm.refl m }

abbrev mock_client : RpcClient Text World
mock_client = record {
  sql_query = λ ctx req w. (err no_database, w);
  write = λ ctx req w. (err no_database, w);
  route = Mock.route;
}

abbrev endpoint : Text → ℕ → Endpoint
endpoint addr port = record { addr = addr; port = port }

abbrev default_endpoint : Endpoint
default_endpoint = endpoint (text "192.168.0.5") 15

abbrev ctx : RpcContext
ctx = record { database = some (text "db"); timeout = none }

abbrev tables : List Text
tables = text "table1" ∷ text "table2" ∷ []

abbrev first_routes : World
first_routes =
    (text "table1", endpoint (text "192.168.0.1") 11)
    ∷ (text "table2", endpoint (text "192.168.0.2") 12)
    ∷ []

abbrev second_routes : World
second_routes =
    (text "table1", endpoint (text "192.168.0.3") 13)
    ∷ (text "table2", endpoint (text "192.168.0.4") 14)
    ∷ []

-- `test_basic_flow`.
abbrev basic_flow : List Action
basic_flow =
    routed tables
    ∷ changed second_routes
    ∷ routed tables
    ∷ evicted tables
    ∷ routed tables
    ∷ routed (text "table3" ∷ text "table4" ∷ [])
    ∷ []

-- What the test asserts.
basic_flow_result :
    ideal default_endpoint first_routes (λ t. none) basic_flow
    ≡ (some (endpoint (text "192.168.0.1") 11) ∷ some (endpoint (text "192.168.0.2") 12) ∷ [])
      ∷ (some (endpoint (text "192.168.0.1") 11) ∷ some (endpoint (text "192.168.0.2") 12) ∷ [])
      ∷ (some (endpoint (text "192.168.0.3") 13) ∷ some (endpoint (text "192.168.0.4") 14) ∷ [])
      ∷ (some default_endpoint ∷ some default_endpoint ∷ [])
      ∷ []
unfolding HashMap.get text_beq
basic_flow_result = refl

perform-ideal_example :
    (r' : RouterImpl Text World) × (w' : World) × (perform in_order ctx
        (new default_endpoint mock_client)
        first_routes
        basic_flow
      ≡ some (ideal default_endpoint first_routes (λ t. none) basic_flow, r', w'))
unfolding new HashMap.get
perform-ideal_example =
    perform-ideal in_order ctx (text "db") refl default_endpoint mock_client (λ req w. refl)
      basic_flow (new default_endpoint mock_client) (λ t. none) first_routes refl refl (λ t. refl)
