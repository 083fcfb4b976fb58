-- ===== src/RpcClient/Impl.antt =====
-- src/rpc_client/rpc_client_impl.rs: the rpc client over gRPC.
pub mod Calls
pub mod Built
use incubator_horaedb_client.Prelude.{
  ℕ, Bool, true, false, not, Option, none, some, List, ◌∷◌, ◌++◌, Text, text, if◌then◌else◌,
}
use mathlib.Core.Option.{get_or}
use incubator_horaedb_client.Config.{Duration, RpcConfig, Authorization}
use incubator_horaedb_client.Errors.{
  Foreign, good, bad, Result, ok, err, server, rpc, connect, other,
}
use incubator_horaedb_client.Util.{is_ok}
use incubator_horaedb_client.RpcClient.{
  RpcContext, ResponseHeader, RouteRequest, RouteResponse, SqlQueryRequestPb, SqlQueryResponsePb,
  WriteRequestPb, WriteResponsePb, Call, RpcClient,
}

-- `tonic::Request`: a message with its timeout and its `authorization` metadata.
pub record TonicRequest (T : Type 0) : Type 0 where
  pub message : T
  pub timeout : Duration
  pub authorization : Option Text

-- The generated service client over one channel.
pub record Channel (X W : Type 0) : Type 0 where
  pub sql_query : TonicRequest SqlQueryRequestPb → W → Foreign X SqlQueryResponsePb × W
  pub write : TonicRequest WriteRequestPb → W → Foreign X WriteResponsePb × W
  pub route : TonicRequest RouteRequest → W → Foreign X RouteResponse × W

pub record RpcClientImpl (X W : Type 0) : Type 0 where
  pub channel : Channel X W
  pub default_read_timeout : Duration
  pub default_write_timeout : Duration
  pub metadata : Option Text

unfoldable pub check_status : {X : Type 0} → ResponseHeader → Result X (Unit {0})
unfolding is_ok
check_status header =
    if not (is_ok header.code)
    then err (server (record { code = header.code; msg = header.error }))
    else ok tt

-- `if let Some(header) = resp.header.take()` with the check of the header, then `Ok(resp)`.
unfoldable pub checked : {X A : Type 0} → Option ResponseHeader → A → Result X A
unfolding check_status
checked none resp = ok resp
checked {X} (some header) resp = elim (check_status {X = X} header) [
  | ok u ↦ ok resp
  | err e ↦ err e
]

module _ {X W : Type 0} where
  unfoldable pub make_request :
      {T : Type 0} → RpcClientImpl X W → RpcContext → T → Duration → TonicRequest T
  make_request client ctx req default_timeout = record {
    message = req;
    timeout = get_or ctx.timeout default_timeout;
    authorization = client.metadata;
  }

  unfoldable pub make_query_request :
      {T : Type 0} → RpcClientImpl X W → RpcContext → T → TonicRequest T
  unfolding make_request
  make_query_request client ctx req = make_request client ctx req client.default_read_timeout

  unfoldable pub make_write_request :
      {T : Type 0} → RpcClientImpl X W → RpcContext → T → TonicRequest T
  unfolding make_request
  make_write_request client ctx req = make_request client ctx req client.default_write_timeout

  abbrev received : {A : Type 0} → (A → Result X A) → Foreign X A × W → Result X A × W
  received check (good resp, w) = (check resp, w)
  received check (bad status, w) = (err (rpc status), w)

  unfoldable pub sql_query :
      RpcClientImpl X W → RpcContext → SqlQueryRequestPb → Call X W SqlQueryResponsePb
  unfolding make_query_request checked
  sql_query client ctx req w =
      received (λ resp. checked resp.header (record resp { header = none }))
        (client.channel.sql_query (make_query_request client ctx req) w)

  unfoldable pub write : RpcClientImpl X W → RpcContext → WriteRequestPb → Call X W WriteResponsePb
  unfolding make_write_request checked
  write client ctx req w =
      received (λ resp. checked resp.header (record resp { header = none }))
        (client.channel.write (make_write_request client ctx req) w)

  unfoldable pub route : RpcClientImpl X W → RpcContext → RouteRequest → Call X W RouteResponse
  unfolding make_request checked
  route client ctx req w =
      received (λ resp. checked resp.header (record resp { header = none }))
        (client.channel.route (make_request client ctx req client.default_write_timeout) w)

  -- The value of the trait `RpcClient`.
  abbrev pub as_rpc_client : RpcClientImpl X W → RpcClient X W
  as_rpc_client client = record {
    sql_query = sql_query client;
    write = write client;
    route = route client;
  }

-- `tonic::transport::Endpoint`: an address and the settings that the factory makes on it.
pub record TonicEndpoint (U : Type 0) : Type 0 where
  pub uri : U
  pub connect_timeout : Option Duration
  pub keep_alive_timeout : Option Duration
  pub keep_alive_while_idle : Option Bool
  pub http2_keep_alive_interval : Option Duration

-- What the factory uses of the crates tonic, http, base64 and anyhow; `U` is the type of their URIs.
pub record Transport (X W U : Type 0) : Type 0 where
  pub parse_uri : Text → Foreign X U
  pub connect_to : TonicEndpoint U → W → Foreign X (Channel X W) × W
  pub base64_encode : List ℕ → Text
  pub parse_metadata : Text → Foreign X Text
  pub in_context : Text → X → X

pub record RpcClientImplFactory : Type 0 where
  pub rpc_config : RpcConfig
  pub authorization : Option Authorization

unfoldable pub make_endpoint_with_scheme : Text → Text
make_endpoint_with_scheme endpoint = text "http://" ++ endpoint

-- `username:password`.
unfoldable pub credentials : Authorization → List ℕ
credentials auth = auth.username ++ b':' ∷ auth.password

-- The settings of the connection; both branches of the `match` on `keep_alive_while_idle`.
unfoldable pub configure : {U : Type 0} → RpcConfig → U → TonicEndpoint U
configure config uri =
    if config.keep_alive_while_idle
    then record {
      uri = uri;
      connect_timeout = some config.connect_timeout;
      keep_alive_timeout = some config.keep_alive_timeout;
      keep_alive_while_idle = some true;
      http2_keep_alive_interval = some config.keep_alive_interval;
    }
    else record {
      uri = uri;
      connect_timeout = some config.connect_timeout;
      keep_alive_timeout = none;
      keep_alive_while_idle = some false;
      http2_keep_alive_interval = none;
    }

module _ {X W U : Type 0} (t : Transport X W U) where
  -- The `authorization` metadata; a failure becomes an `anyhow::Error` with a context.
  unfoldable pub make_metadata : Option Authorization → Foreign X (Option Text)
  unfolding credentials
  make_metadata none = good none
  make_metadata (some auth) =
      elim (t.parse_metadata (text "Basic " ++ t.base64_encode (credentials auth))) [
        | good md ↦ good (some md)
        | bad x ↦ bad x
      ]

  abbrev finish :
      RpcClientImplFactory → Text → Foreign X (Channel X W) × W → Result X (RpcClientImpl X W) × W
  finish factory endpoint (bad x, w) = (err (connect endpoint x), w)
  finish factory endpoint (good channel, w) = (
    elim (make_metadata factory.authorization) [
      | bad x ↦ err (other (t.in_context (text "invalid grpc metadata") x))
      | good metadata ↦ ok (record {
        channel = channel;
        default_read_timeout = factory.rpc_config.default_sql_query_timeout;
        default_write_timeout = factory.rpc_config.default_write_timeout;
        metadata = metadata;
      })
    ],
    w,
  )

  -- `RpcClientFactory::build`.
  unfoldable pub build : RpcClientImplFactory → Text → Call X W (RpcClientImpl X W)
  unfolding make_endpoint_with_scheme configure make_metadata
  build factory endpoint w = elim (t.parse_uri (make_endpoint_with_scheme endpoint)) [
    | bad x ↦ (err (connect endpoint x), w)
    | good uri ↦ finish factory endpoint (t.connect_to (configure factory.rpc_config uri) w)
  ]
