-- ===== src/DbClient/Builder.antt =====
-- src/db_client/builder.rs: the settings of a client, and the client of its mode.
use incubator_horaedb_client.Prelude.{Option, none, some, Text}
use incubator_horaedb_client.Config.{RpcConfig, Authorization, default_config}
use incubator_horaedb_client.RpcClient.Impl.{RpcClientImplFactory}
use incubator_horaedb_client.DbClient.Raw
use incubator_horaedb_client.DbClient.Raw.{RawImpl}
use incubator_horaedb_client.DbClient.RouteBased
use incubator_horaedb_client.DbClient.RouteBased.{RouteBasedImpl}

pub data Mode : Type 0 where
  direct proxy : Mode

pub record Builder : Type 0 where
  pub mode : Mode
  pub endpoint : Text
  pub default_database : Option Text
  pub rpc_config : RpcConfig
  pub authorization : Option Authorization

unfoldable pub new : Text → Mode → Builder
new endpoint mode = record {
  mode = mode;
  endpoint = endpoint;
  default_database = none;
  rpc_config = default_config;
  authorization = none;
}

unfoldable pub with_default_database : Builder → Text → Builder
with_default_database b database = record b { default_database = some database }

unfoldable pub with_rpc_config : Builder → RpcConfig → Builder
with_rpc_config b config = record b { rpc_config = config }

unfoldable pub with_authorization : Builder → Authorization → Builder
with_authorization b auth = record b { authorization = some auth }

-- The trait object: a client of either mode.
pub data AnyClient (X W : Type 0) : Type 0 where
  route_based : RouteBasedImpl X W → AnyClient X W
  raw : RawImpl X W → AnyClient X W

-- The client, with the factory that its servers' clients are built by.
unfoldable pub build : {X W : Type 0} → Builder → RpcClientImplFactory × AnyClient X W
unfolding RouteBased.new Raw.new
build b = (
  record { rpc_config = b.rpc_config; authorization = b.authorization },
  elim b.mode [
    | direct ↦ route_based (RouteBased.new b.endpoint b.default_database)
    | proxy ↦ raw (Raw.new b.endpoint b.default_database)
  ],
)
