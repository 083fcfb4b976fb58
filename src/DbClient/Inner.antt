-- ===== src/DbClient/Inner.antt =====
-- src/db_client/inner.rs: one server, whose rpc client is built at the first use.
pub mod Panics
pub mod Sent
use incubator_horaedb_client.Prelude.{Option, none, some, List, Text}
use incubator_horaedb_client.Errors.{Response, Result, ok, err}
use incubator_horaedb_client.RpcClient.{
  RpcContext, RpcClient, RpcClientFactory, SqlQueryResponsePb, WriteResponsePb,
}
use incubator_horaedb_client.Model.SqlQuery
use incubator_horaedb_client.Model.SqlQuery.Response
use incubator_horaedb_client.Model.SqlQuery.Response.{Decoders, try_from}
use incubator_horaedb_client.Write.Request
use incubator_horaedb_client.Write.PbBuilder.{Orders, build_request, WriteTableRequestPb}

-- What a client uses of the world: the factory, the decoders of query results and the iteration
-- orders of hash maps.
pub record Env (X W : Type 0) : Type 0 where
  pub factory : RpcClientFactory X W
  pub decoders : Decoders X
  pub orders : Orders

-- `inner_client` is the `OnceCell`.
pub record InnerClient (X W : Type 0) : Type 0 where
  pub endpoint : Text
  pub inner_client : Option (RpcClient X W)

unfoldable pub new : {X W : Type 0} → Text → InnerClient X W
new endpoint = record { endpoint = endpoint; inner_client = none }

module _ {X W : Type 0} (env : Env X W) where
  -- `init`: the connection is made to the client's own endpoint.
  abbrev pub init : InnerClient X W → W → Result X (RpcClient X W) × W
  init c w = env.factory.build c.endpoint w

  abbrev pub filled :
      InnerClient X W
      → Result X (RpcClient X W) × W
      → Result X (RpcClient X W) × InnerClient X W × W
  filled c (ok client, w) = (ok client, record c { inner_client = some client }, w)
  filled c (err e, w) = (err e, c, w)

  -- `get_or_try_init(|| self.init())`, as the crate tokio documents it for a `OnceCell`: a cell with a
  -- value gives it, an empty one runs the initialisation, and a failed one leaves it empty.
  unfoldable pub get_or_try_init :
      InnerClient X W → W → Result X (RpcClient X W) × InnerClient X W × W
  get_or_try_init c w = elim c.inner_client [
    | some client ↦ (ok client, c, w)
    | none ↦ filled c (init c w)
  ]

  abbrev decoded : Result X SqlQueryResponsePb → Option (Result X Response.Response)
  decoded (err e) = some (err e)
  decoded (ok pb) = try_from env.decoders pb

  -- The result of a call with the client and the world after it; `none` is a panic.
  abbrev pub Outcome : Type 0 → Type 0
  Outcome A = Option (Result X A × InnerClient X W × W)

  abbrev with_state : {A : Type 0} → InnerClient X W → W → Option (Result X A) → Outcome A
  with_state c w none = none
  with_state c w (some r) = some (r, c, w)

  abbrev query_with :
      RpcContext
      → Text
      → SqlQuery.Request
      → Result X (RpcClient X W) × InnerClient X W × W
      → Outcome Response.Response
  query_with ctx database req (err e, c, w) = some (err e, c, w)
  query_with ctx database req (ok client, c, w) =
      let (r, w') =
        client.sql_query ctx
          (record {
            context = some (record { database = database });
            tables = req.tables;
            sql = req.sql;
          })
          w in
      with_state c w' (decoded r)

  -- `sql_query_internal`, its assertion included.
  unfoldable pub sql_query_internal :
      InnerClient X W → RpcContext → SqlQuery.Request → W → Outcome Response.Response
  unfolding get_or_try_init
  sql_query_internal c ctx req w = elim ctx.database [
    | none ↦ none
    | some database ↦ query_with ctx database req (get_or_try_init c w)
  ]

  -- `From<WriteResponsePb> for Response`.
  abbrev pub from_pb : Result X WriteResponsePb → Result X Response
  from_pb (err e) = err e
  from_pb (ok pb) = ok (record { success = pb.success; failed = pb.failed })

  abbrev pub send :
      RpcContext
      → Text
      → RpcClient X W
      → InnerClient X W
      → W
      → Option (List WriteTableRequestPb)
      → Outcome Response
  send ctx database client c w none = none
  send ctx database client c w (some pbs) =
      let (r, w') =
        client.write ctx
          (record { context = some (record { database = database }); table_requests = pbs }) w in
      some (from_pb r, c, w')

  abbrev pub write_with :
      RpcContext
      → Text
      → Request.Request
      → Result X (RpcClient X W) × InnerClient X W × W
      → Outcome Response
  write_with ctx database req (err e, c, w) = some (err e, c, w)
  write_with ctx database req (ok client, c, w) =
      send ctx database client c w (build_request env.orders req)

  -- `write_internal`, its assertion included.
  unfoldable pub write_internal :
      InnerClient X W → RpcContext → Request.Request → W → Outcome Response
  unfolding get_or_try_init
  write_internal c ctx req w = elim ctx.database [
    | none ↦ none
    | some database ↦ write_with ctx database req (get_or_try_init c w)
  ]
