-- ===== src/Tests/Totals.antt =====
-- Tests of when calls of src/db_client/ panic.
use incubator_horaedb_client.Prelude.{
  some, text, ◌↔◌, subst, ◌≡◌, ◌≢◌, refl, none, [], ◌∷◌, Text, text_eq, text_beq, All, arith,
}
use incubator_horaedb_client.Prelude.HashMap
use incubator_horaedb_client.Prelude.HashMap.{HashMap, HashOrder}
use incubator_horaedb_client.Errors.{good, ok}
use incubator_horaedb_client.Model.SqlQuery.Response.{collect, flatten, all_rows, try_from}
use incubator_horaedb_client.Model.Value.Value.{int32}
use incubator_horaedb_client.Write.Request
use incubator_horaedb_client.Write.PbBuilder.Decode.Total.{IsWellFormed}
use incubator_horaedb_client.RpcClient.{RpcContext}
use incubator_horaedb_client.Router.{route}
use incubator_horaedb_client.DbClient.{resolve_database}
use incubator_horaedb_client.DbClient.Inner.Panics.{AnswersLarge}
use incubator_horaedb_client.Model.SqlQuery.Response.Panics.{
  IsArrow, IsArrowBatch, AllGood, IsLarge, try_from-none_iff,
}
use incubator_horaedb_client.Prelude.Int.{pos}
use incubator_horaedb_client.DbClient.Raw
use incubator_horaedb_client.DbClient.Raw.{RawImpl}
use incubator_horaedb_client.DbClient.Raw.Panics.{raw_none_iff}
use incubator_horaedb_client.DbClient.RouteBased.Query
use incubator_horaedb_client.DbClient.RouteBased.Query.Panics.{
  IsAnsweredLarge, routed_query-none_iff,
}
use incubator_horaedb_client.DbClient.RouteBased.Write
use incubator_horaedb_client.DbClient.RouteBased.Write.{Results, merged, with_unrouted}
use incubator_horaedb_client.DbClient.RouteBased.Write.Panics.{routed_write_total}
use incubator_horaedb_client.Tests.Servers.{
  decoders, large_batch, number_batch, numbers, route_orders, three_rows, large_text, env, ctx,
  query, client, groups, raw_client,
}

pub decoders-IsArrow : IsArrow decoders
decoders-IsArrow [] stream opened =
    let same : good large_batch ∷ [] ≡ stream = ground (arith, opened) in
    subst (AllGood IsArrowBatch) same (
      λ batch is.
          let read : large_batch ≡ batch = ground (arith, is) in
          subst IsArrowBatch read (record { named = refl; arrays = (refl, tt) }),
      tt,
    )
decoders-IsArrow (b ∷ bytes) stream opened =
    let same : good number_batch ∷ [] ≡ stream = ground (arith, opened) in
    subst (AllGood IsArrowBatch) same (
      λ batch is.
          let read : number_batch ≡ batch = ground (arith, is) in
          subst IsArrowBatch read
            (record { named = refl; arrays = ((pos 7 ∷ pos 8 ∷ [], refl, refl), tt) }),
      tt,
    )

abbrev request : Request.Request
request = record { point_groups = groups }

pub groups_well : All IsWellFormed groups
unfolding text_beq
groups_well = (
  (refl, ground arith, omega arith, omega arith),
  ((refl, ground arith, omega arith, omega arith), tt),
)

-- The answer of the server is the one that cannot be decoded.
try_from-none_iff_example : (try_from decoders large_text ≡ none) ↔ IsLarge decoders large_text
try_from-none_iff_example = try_from-none_iff decoders large_text decoders-IsArrow

raw_none_iff_example :
    ((Raw.sql_query (env (ok large_text)) raw_client ctx query 0 ≡ none) ↔ (
      (ctx' : RpcContext) × (resolve_database {X = Text} ctx raw_client.default_database ≡ ok ctx')
      × AnswersLarge (env (ok large_text)) raw_client.inner_client ctx' query 0))
    × (Raw.write (env (ok large_text)) raw_client ctx request 0 ≢ none)
raw_none_iff_example =
    raw_none_iff (env (ok large_text)) raw_client ctx 0 query request decoders-IsArrow groups_well

routed_query-none_iff_example :
    (Query.sql_query (env (ok large_text)) route_orders (client (ok large_text)) ctx query 0 ≡ none)
    ↔ IsAnsweredLarge (env (ok large_text)) route_orders (client (ok large_text)) ctx query 0
routed_query-none_iff_example =
    routed_query-none_iff (env (ok large_text)) route_orders (client (ok large_text)) ctx query 0
      decoders-IsArrow

-- The other answer is decoded to its two rows.
numbers_read :
    try_from decoders numbers
    ≡ some (
        ok (record {
          affected_rows = 0;
          rows =
              record { columns = record { name = text "n"; value = int32 (pos 7) } ∷ [] }
              ∷ record { columns = record { name = text "n"; value = int32 (pos 8) } ∷ [] }
              ∷ [];
        }))
unfolding try_from collect flatten all_rows
numbers_read = refl

-- With decoders that yield a `LargeUtf8` column the query panics.
query_panics :
    Query.sql_query (env (ok large_text)) route_orders (client (ok large_text)) ctx query 0 ≡ none
unfolding Query.sql_query route HashMap.get text_beq try_from
query_panics = refl

routed_write_total_example :
    Write.write (env (ok three_rows)) route_orders (client (ok three_rows)) ctx request 0 ≢ none
routed_write_total_example =
    routed_write_total (env (ok three_rows)) route_orders (client (ok three_rows)) ctx request 0
      groups_well
