-- ===== src/DbClient/Raw.antt =====
-- src/db_client/raw.rs: the client of one server.
pub mod Panics
use incubator_horaedb_client.Prelude.{Option, none, some, Text}
use incubator_horaedb_client.Errors.{Response, Result, ok, err}
use incubator_horaedb_client.RpcClient.{RpcContext}
use incubator_horaedb_client.Model.SqlQuery
use incubator_horaedb_client.Model.SqlQuery.Response
use incubator_horaedb_client.Write.Request
use incubator_horaedb_client.DbClient.{resolve_database}
use incubator_horaedb_client.DbClient.Inner
use incubator_horaedb_client.DbClient.Inner.{Env, InnerClient, sql_query_internal, write_internal}

pub record RawImpl (X W : Type 0) : Type 0 where
  pub inner_client : InnerClient X W
  pub default_database : Option Text

unfoldable pub new : {X W : Type 0} → Text → Option Text → RawImpl X W
new endpoint default_database = record {
  inner_client = Inner.new endpoint;
  default_database = default_database;
}

module _ {X W : Type 0} (env : Env X W) where
  -- The result of a call with the client and the world after it; `none` is a panic.
  abbrev pub Outcome : Type 0 → Type 0
  Outcome A = Option (Result X A × RawImpl X W × W)

  abbrev lift : {A : Type 0} → RawImpl X W → Inner.Outcome env A → Outcome A
  lift c none = none
  lift c (some (r, inner, w)) = some (r, record c { inner_client = inner }, w)

  unfoldable pub sql_query :
      RawImpl X W → RpcContext → SqlQuery.Request → W → Outcome Response.Response
  unfolding sql_query_internal resolve_database
  sql_query c ctx req w = elim (resolve_database {X = X} ctx c.default_database) [
    | err e ↦ some (err e, c, w)
    | ok ctx' ↦ lift c (sql_query_internal env c.inner_client ctx' req w)
  ]

  unfoldable pub write : RawImpl X W → RpcContext → Request.Request → W → Outcome Response
  unfolding write_internal resolve_database
  write c ctx req w = elim (resolve_database {X = X} ctx c.default_database) [
    | err e ↦ some (err e, c, w)
    | ok ctx' ↦ lift c (write_internal env c.inner_client ctx' req w)
  ]
