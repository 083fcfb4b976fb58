-- ===== src/Tests/Servers.antt =====
-- Servers, clients and requests for the tests of src/db_client/.
use incubator_horaedb_client.Prelude.{
  is_empty, if◌then◌else◌, ℕ, suc, none, some, List, [], ◌∷◌, Text, text, text_eq,
}
use mathlib.Core.List.Perm
use incubator_horaedb_client.Prelude.Int.{pos}
use incubator_horaedb_client.Prelude.HashMap.{HashMap, HashOrder}
use incubator_horaedb_client.Errors.{good, Result, ok}
use incubator_horaedb_client.Model.Value.Value.{uint32}
use incubator_horaedb_client.Model.Route.{Endpoint}
use incubator_horaedb_client.Model.SqlQuery
use incubator_horaedb_client.Model.SqlQuery.Row.{ArrowType, RecordBatch}
use incubator_horaedb_client.Model.SqlQuery.Response.{Decoders}
use incubator_horaedb_client.Write.Point.{Point}
use incubator_horaedb_client.Write.PbBuilder.{Orders}
use incubator_horaedb_client.RpcClient.{
  RpcContext, RpcClient, SqlQueryResponsePb, affected_rows, arrow, uncompressed,
}
use incubator_horaedb_client.Router.{RouterImpl}
use incubator_horaedb_client.DbClient.Inner.{Env}
use incubator_horaedb_client.DbClient.Raw.{RawImpl}
use incubator_horaedb_client.DbClient.RouteBased.{RouteBasedImpl, RouteOrders}
use incubator_horaedb_client.Tests.Queries.{no_array}

abbrev pub in_order : {K V : Type 0} → HashOrder K V
in_order = record { arrange = λ m. m; arrange-perm = λ m. Perm.refl m }

abbrev pub orders : Orders
orders = record {
  groups = in_order;
  series = λ t. in_order;
  dicts = λ t. record { tags = in_order; fields = in_order };
}

abbrev pub route_orders : RouteOrders
route_orders = record { tables = in_order; misses = in_order; endpoints = in_order }

-- A server that answers every query with `reply`; the world counts the calls.
abbrev pub server : Result Text SqlQueryResponsePb → RpcClient Text ℕ
server reply = record {
  sql_query = λ ctx req w. (reply, suc w);
  write = λ ctx req w. (ok (record { header = none; success = 1; failed = 0 }), suc w);
  route = λ ctx req w. (ok (record { header = none; routes = [] }), suc w);
}

abbrev pub three_rows : SqlQueryResponsePb
three_rows = record { header = none; output = some (affected_rows 3) }

-- A response whose record batch has a `LargeUtf8` column.
abbrev pub large_text : SqlQueryResponsePb
large_text = record {
  header = none;
  output = some (arrow (record { record_batches = [] ∷ []; compression = uncompressed }));
}

abbrev pub large_batch : RecordBatch
large_batch = record {
  field_names = text "s" ∷ [];
  columns = no_array ArrowType.large_utf8 ∷ [];
  num_rows = 1;
}

abbrev pub number_batch : RecordBatch
number_batch = record {
  field_names = text "n" ∷ [];
  columns = record (no_array ArrowType.int32) { int32_array = some (pos 7 ∷ pos 8 ∷ []) } ∷ [];
  num_rows = 2;
}

abbrev pub batch_of : List ℕ → RecordBatch
batch_of bytes = if is_empty bytes then large_batch else number_batch

-- An empty stream of bytes holds the large batch, any other the numbers.
abbrev pub decoders : Decoders Text
decoders = record {
  decode_all = λ bytes. good bytes;
  read_stream = λ bytes. good (good (batch_of bytes) ∷ []);
}

-- A response with the numbers.
abbrev pub numbers : SqlQueryResponsePb
numbers = record {
  header = none;
  output = some (arrow (record { record_batches = (1 ∷ []) ∷ []; compression = uncompressed }));
}

abbrev pub env : Result Text SqlQueryResponsePb → Env Text ℕ
env reply = record {
  factory = record { build = λ endpoint w. (ok (server reply), w) };
  decoders = decoders;
  orders = orders;
}

abbrev pub ctx : RpcContext
ctx = record { database = some (text "db"); timeout = none }

abbrev pub cpu : Endpoint
cpu = record { addr = text "h"; port = 1 }

abbrev pub query : SqlQuery.Request
query = record { tables = text "cpu" ∷ []; sql = text "select 1" }

abbrev pub router : Result Text SqlQueryResponsePb → RouterImpl Text ℕ
router reply = record {
  default_endpoint = cpu;
  cache = (text "cpu", cpu) ∷ (text "mem", cpu) ∷ [];
  rpc_client = server reply;
}

abbrev pub client : Result Text SqlQueryResponsePb → RouteBasedImpl Text ℕ
client reply = record {
  router_endpoint = text "h:1";
  router = some (router reply);
  standalone_pool = [];
  default_database = none;
}

abbrev pub point : Text → Point
point table = record {
  table = table;
  timestamp = pos 1;
  tags = [];
  fields = (text "load", uint32 1) ∷ [];
}

abbrev pub groups : HashMap Text (List Point)
groups = (text "cpu", point (text "cpu") ∷ []) ∷ (text "mem", point (text "mem") ∷ []) ∷ []

abbrev pub raw_client : RawImpl Text ℕ
raw_client = record {
  inner_client = record { endpoint = text "h:1"; inner_client = none };
  default_database = none;
}
