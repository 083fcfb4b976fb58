-- ===== src/DbClient/RouteBased.antt =====
-- src/db_client/route_based.rs: the client that sends each request to the servers of its tables.
pub mod Clients
pub mod Partition
pub mod Write
pub mod Joined
pub mod Query
use incubator_horaedb_client.Prelude.{
  ℕ, Option, none, some, List, [], ◌∷◌, ◌++◌, Text, text, text_eq,
}
use incubator_horaedb_client.Prelude.HashMap
use incubator_horaedb_client.Prelude.HashMap.{HashMap, HashOrder}
use incubator_horaedb_client.Errors.{Result, ok, err, client}
use incubator_horaedb_client.Model.Route.{Endpoint, from_str, FromStr, endpoint, failed}
use incubator_horaedb_client.Write.Point.{Point}
use incubator_horaedb_client.Write.Request
use incubator_horaedb_client.RpcClient.{RpcClient}
use incubator_horaedb_client.Router
use incubator_horaedb_client.Router.{RouterImpl}
use incubator_horaedb_client.DbClient.Inner.{Env}
use Clients.{Pool}

pub record RouteBasedImpl (X W : Type 0) : Type 0 where
  pub router_endpoint : Text
  pub router : Option (RouterImpl X W)
  pub standalone_pool : Pool X W
  pub default_database : Option Text

unfoldable pub new : {X W : Type 0} → Text → Option Text → RouteBasedImpl X W
new router_endpoint default_database = record {
  router_endpoint = router_endpoint;
  router = none;
  standalone_pool = [];
  default_database = default_database;
}

-- The iteration orders of the maps that a call walks.
pub record RouteOrders : Type 0 where
  pub tables : HashOrder Text (List Point)
  pub misses : HashOrder Text ℕ
  pub endpoints : HashOrder Endpoint Request.Request

module _ {X W : Type 0} (env : Env X W) where
  abbrev parsed_router : Text → Result X (RpcClient X W) × W → Result X (RouterImpl X W) × W
  parsed_router s (err e, w) = (err e, w)
  parsed_router s (ok rpc_client, w) = (
    elim (from_str s) [
      | endpoint e ↦ ok (Router.new e rpc_client)
      | failed msg ↦
          err (client (text "Failed to parse default endpoint:" ++ (s ++ (text ", err:" ++ msg))))
    ],
    w,
  )

  -- `init_router`: it connects first and parses the endpoint then.
  unfoldable pub init_router : Text → W → Result X (RouterImpl X W) × W
  unfolding from_str Router.new
  init_router s w = parsed_router s (env.factory.build s w)

  abbrev filled :
      RouteBasedImpl X W
      → Result X (RouterImpl X W) × W
      → Result X (RouterImpl X W) × RouteBasedImpl X W × W
  filled c (ok r, w) = (ok r, record c { router = some r }, w)
  filled c (err e, w) = (err e, c, w)

  -- `self.router.get_or_try_init(|| self.init_router())`, as the crate tokio documents it for a
  -- `OnceCell`.
  unfoldable pub get_router :
      RouteBasedImpl X W → W → Result X (RouterImpl X W) × RouteBasedImpl X W × W
  unfolding init_router
  get_router c w = elim c.router [
    | some r ↦ (ok r, c, w)
    | none ↦ filled c (init_router c.router_endpoint w)
  ]
