-- ===== src/RpcClient/Mock.antt =====
-- src/rpc_client/mock_rpc_client.rs: the client of the router's test.
use incubator_horaedb_client.Prelude.{Option, none, some, List, [], ◌∷◌, Text, text_eq}
use incubator_horaedb_client.Prelude.HashMap
use incubator_horaedb_client.Prelude.HashMap.{HashMap}
use incubator_horaedb_client.Errors.{Result, ok}
use incubator_horaedb_client.Model.Route.{Endpoint}
use incubator_horaedb_client.RpcClient.{RpcContext, RouteRequest, Route, RouteResponse}

-- The closure over one table of the request: its route, if the route table has one.
unfoldable pub route_of : HashMap Text Endpoint → Text → Option Route
route_of route_table m = elim (HashMap.get m route_table) [
  | none ↦ none
  | some e ↦ some (record { table = m; endpoint = some (record { ip = e.addr; port = e.port }) })
]

abbrev keep : Option Route → List Route → List Route
keep none rs = rs
keep (some r) rs = r ∷ rs

unfoldable pub routes_of : HashMap Text Endpoint → List Text → List Route
unfolding route_of
routes_of route_table [] = []
routes_of route_table (m ∷ ms) = keep (route_of route_table m) (routes_of route_table ms)

-- `MockRpcClient::route`; its `sql_query` and `write` are `todo!()`. The route table is shared with
-- the test, so it is the state of the world.
unfoldable pub route :
    {X : Type 0}
    → RpcContext
    → RouteRequest
    → HashMap Text Endpoint
    → Result X RouteResponse × HashMap Text Endpoint
unfolding routes_of
route ctx req route_table =
    (ok (record { header = none; routes = routes_of route_table req.tables }), route_table)
