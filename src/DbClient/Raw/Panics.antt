-- ===== src/DbClient/Raw/Panics.antt =====
-- When a call of src/db_client/raw.rs can panic.
use incubator_horaedb_client.Prelude.{◌≡◌, ◌↔◌, ◌≢◌, All, none, arith, inl, inr}
use incubator_horaedb_client.Model.SqlQuery
use incubator_horaedb_client.Model.SqlQuery.Response.Panics.{IsArrow}
use incubator_horaedb_client.Write.Request
use incubator_horaedb_client.Write.PbBuilder.Decode.Total.{IsWellFormed, build_request_total}
use incubator_horaedb_client.Errors.{ok}
use incubator_horaedb_client.RpcClient.{RpcContext}
use incubator_horaedb_client.DbClient.{resolve_database}
use incubator_horaedb_client.DbClient.Database.{resolve_database-named, resolve_database-cases}
use incubator_horaedb_client.DbClient.Inner.{Env}
use incubator_horaedb_client.DbClient.Inner.Panics.{
  AnswersLarge, sql_query_internal-none, AnswersLarge-none, write_internal-none,
}
use incubator_horaedb_client.DbClient.Raw.{RawImpl, sql_query, write}

-- If the record batches that are read are as the crate arrow documents them, a query panics exactly
-- when a database is found, the server is connected and answers, and the answer is decoded to
-- record batches of which the first column that cannot be filled in has the type LargeUtf8 or
-- LargeBinary. If besides the points of every group of a request are of the group's table and hold
-- values in the ranges of their types, and those of each group have fewer than 2 ^ 32 tags and
-- fewer than 2 ^ 32 fields together, then writing it does not panic. The assertions on the database
-- never fail.
pub raw_none_iff :
    {X W : Type 0} (env : Env X W) (c : RawImpl X W) (ctx : RpcContext) (w : W)
    (query : SqlQuery.Request) (req : Request.Request)
    → IsArrow env.decoders
    → All IsWellFormed req.point_groups
    → ((sql_query env c ctx query w ≡ none) ↔ (
        (ctx' : RpcContext) × (resolve_database {X = X} ctx c.default_database ≡ ok ctx')
        × AnswersLarge env c.inner_client ctx' query w))
      × (write env c ctx req w ≢ none)
unfolding sql_query write
raw_none_iff {X} env c ctx w query req documented well = (
  (
    λ h. elim (resolve_database-cases X ctx c.default_database) [
      | inl refused ↦ absurd (ground (arith, refused))
      | inr (ctx', chosen) ↦ (
        ctx',
        chosen,
        sql_query_internal-none env documented ctx' query c.inner_client w
            (resolve_database-named X ctx ctx' c.default_database chosen) (ground (arith, chosen)),
      )
    ],
    λ (ctx', chosen, answers).
        ground
          (arith, chosen, AnswersLarge-none env documented ctx' query c.inner_client w answers),
  ),
  λ h. elim (resolve_database-cases X ctx c.default_database) [
    | inl refused ↦ absurd (ground (arith, refused))
    | inr (ctx', chosen) ↦ build_request_total env.orders req well (
        write_internal-none env c.inner_client ctx' req w
          (resolve_database-named X ctx ctx' c.default_database chosen) (ground (arith, chosen)))
  ],
)
