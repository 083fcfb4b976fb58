-- ===== src/DbClient.antt =====
-- src/db_client/mod.rs: the database of a request.
pub mod Database
pub mod Inner
pub mod Raw
pub mod RouteBased
pub mod Builder
use incubator_horaedb_client.Prelude.{Option, none, some, Text}
use incubator_horaedb_client.Errors.{Result, ok, err, no_database}
use incubator_horaedb_client.RpcClient.{RpcContext}

unfoldable pub resolve_database : {X : Type 0} → RpcContext → Option Text → Result X RpcContext
resolve_database ctx default_database = elim ctx.database [
  | some database ↦ ok ctx
  | none ↦ elim default_database [
    | some database ↦ ok (record ctx { database = some database })
    | none ↦ err no_database
  ]
]
