-- ===== src/Tests/Grpc.antt =====
-- Tests of the gRPC client of src/rpc_client/rpc_client_impl.rs and of a first write through it.
use incubator_horaedb_client.Prelude.{
  ℕ, suc, text_beq, ◌≡◌, ◌↔◌, refl, none, some, [], ◌++◌, Text, text,
}
use incubator_horaedb_client.Config.{default_config}
use incubator_horaedb_client.Errors.{Error, good, ok, err}
use incubator_horaedb_client.RpcClient.{
  ResponseHeader, RouteRequest, RouteResponse, SqlQueryRequestPb, SqlQueryResponsePb,
  WriteRequestPb, WriteResponsePb,
}
use incubator_horaedb_client.RpcClient.Impl.{
  Channel, RpcClientImpl, Transport, RpcClientImplFactory, as_rpc_client, build, sql_query, write,
  route,
}
use incubator_horaedb_client.RpcClient.Impl.Calls.{
  IsAccepted, IsFault, sent, calls_ok_iff, calls_err,
}
use incubator_horaedb_client.RpcClient.Impl.Built.{IsBuilt, IsUnbuilt, build_lem}
use incubator_horaedb_client.Prelude.HashMap
use incubator_horaedb_client.Prelude.BTreeMap
use incubator_horaedb_client.Write.Request
use incubator_horaedb_client.Write.PbBuilder
use incubator_horaedb_client.Write.PbBuilder.Series
use incubator_horaedb_client.Write.PbBuilder.Names
use incubator_horaedb_client.Write.PbBuilder.{build_request}
use incubator_horaedb_client.DbClient.Inner.{Env, InnerClient, new, write_internal}
use incubator_horaedb_client.DbClient.Inner.Sent.{grpc_factory, IsSent, write_internal-IsSent}
use incubator_horaedb_client.Tests.Servers.{orders, decoders, ctx, groups}

abbrev header : ℕ → ResponseHeader
header code = record { code = code; error = text "no" }

-- A server that takes writes, refuses queries and routes nothing.
abbrev channel : Channel Text ℕ
channel = record {
  sql_query = λ req w. (good (record { header = some (header 500); output = none }), suc w);
  write = λ req w. (good (record { header = some (header 200); success = 2; failed = 0 }), suc w);
  route = λ req w. (good (record { header = none; routes = [] }), suc w);
}

abbrev transport : Transport Text ℕ Text
transport = record {
  parse_uri = λ uri. good uri;
  connect_to = λ endpoint w. (good channel, suc w);
  base64_encode = λ bytes. bytes;
  parse_metadata = λ value. good value;
  in_context = λ context e. context ++ e;
}

abbrev factory : RpcClientImplFactory
factory = record {
  rpc_config = default_config;
  authorization = some (record { username = text "u"; password = text "p" });
}

abbrev client : RpcClientImpl Text ℕ
client = record {
  channel = channel;
  default_read_timeout = default_config.default_sql_query_timeout;
  default_write_timeout = default_config.default_write_timeout;
  metadata = some (text "Basic u:p");
}

abbrev env : Env Text ℕ
env = record { factory = grpc_factory transport factory; decoders = decoders; orders = orders }

abbrev request : Request.Request
request = record { point_groups = groups }

abbrev connected : InnerClient Text ℕ
connected = record { endpoint = text "h:1"; inner_client = some (as_rpc_client client) }

first_write :
    write_internal env (new (text "h:1")) ctx request 0
    ≡ some (ok (record { success = 2; failed = 0 }), connected, 2)
unfolding build write_internal new build_request write text_beq Series.new PbBuilder.build
    Names.convert_ordered PbBuilder.build_entries HashMap.update PbBuilder.build_series_entry
    PbBuilder.build_named Series.insert_fields PbBuilder.build_ts_fields BTreeMap.insert
    Names.insert HashMap.get HashMap.insert
first_write = refl

write_internal-IsSent_example :
    IsSent transport factory env (text "h:1") ctx request (record { success = 2; failed = 0 }) 0 2
write_internal-IsSent_example =
    write_internal-IsSent transport factory env (text "h:1") ctx request
      (record { success = 2; failed = 0 }) 0 2 connected refl first_write

build_lem_example :
    ((c : RpcClientImpl Text ℕ)
      → build transport factory (text "h:1") 0 ≡ (ok c, 1)
      → IsBuilt transport factory (text "h:1") 0 c 1)
    × ((e : Error Text)
        → build transport factory (text "h:1") 0 ≡ (err e, 1)
        → IsUnbuilt transport factory (text "h:1") 0 e 1)
build_lem_example = build_lem transport factory (text "h:1") 0 1

calls_ok_iff_example :
    ((req : SqlQueryRequestPb) (w w' : ℕ) (resp : SqlQueryResponsePb)
      → (sql_query client ctx req w ≡ (ok resp, w')) ↔ (
          (r : SqlQueryResponsePb) × (channel.sql_query
              (sent client ctx req client.default_read_timeout)
              w
            ≡ (good r, w'))
          × IsAccepted r.header
          × (record r { header = none } ≡ resp)))
    × ((req : WriteRequestPb) (w w' : ℕ) (resp : WriteResponsePb)
        → (write client ctx req w ≡ (ok resp, w')) ↔ (
            (r : WriteResponsePb) × (channel.write
                (sent client ctx req client.default_write_timeout)
                w
              ≡ (good r, w'))
            × IsAccepted r.header
            × (record r { header = none } ≡ resp)))
    × ((req : RouteRequest) (w w' : ℕ) (resp : RouteResponse)
        → (route client ctx req w ≡ (ok resp, w')) ↔ (
            (r : RouteResponse) × (channel.route
                (sent client ctx req client.default_write_timeout)
                w
              ≡ (good r, w'))
            × IsAccepted r.header
            × (record r { header = none } ≡ resp)))
calls_ok_iff_example = calls_ok_iff client ctx

calls_err_example :
    ((req : SqlQueryRequestPb) (w w' : ℕ) (e : Error Text)
      → sql_query client ctx req w ≡ (err e, w')
      → IsFault
          (λ (r : SqlQueryResponsePb). r.header)
          (channel.sql_query (sent client ctx req client.default_read_timeout) w)
          e
          w')
    × ((req : WriteRequestPb) (w w' : ℕ) (e : Error Text)
        → write client ctx req w ≡ (err e, w')
        → IsFault
            (λ (r : WriteResponsePb). r.header)
            (channel.write (sent client ctx req client.default_write_timeout) w)
            e
            w')
    × ((req : RouteRequest) (w w' : ℕ) (e : Error Text)
        → route client ctx req w ≡ (err e, w')
        → IsFault
            (λ (r : RouteResponse). r.header)
            (channel.route (sent client ctx req client.default_write_timeout) w)
            e
            w')
calls_err_example = calls_err client ctx
