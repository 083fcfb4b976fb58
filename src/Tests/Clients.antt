-- ===== src/Tests/Clients.antt =====
-- Tests of src/db_client/: connections, databases, partitions and results.
use incubator_horaedb_client.Prelude.{
  ℕ, ◌≡◌, ◌↔◌, refl, none, some, [], ◌∷◌, Text, text, text_eq, text_beq, length, All,
}
use incubator_horaedb_client.Prelude.HashMap
use incubator_horaedb_client.Prelude.HashMap.{HashMap, HashOrder}
use incubator_horaedb_client.Errors.{no_database, route_based_write_error, ok, err}
use incubator_horaedb_client.Errors.Merge.{IsOk, written, failures}
use incubator_horaedb_client.Model.SqlQuery.Response.{try_from}
use incubator_horaedb_client.Prelude.Decimal.{show_u32}
use incubator_horaedb_client.RpcClient.{RpcContext}
use incubator_horaedb_client.Router.{RouterImpl, Targets, route}
use incubator_horaedb_client.Router.Total.{route_total}
use incubator_horaedb_client.DbClient.{resolve_database}
use incubator_horaedb_client.DbClient.Database.{first_of, resolve_database_lem}
use incubator_horaedb_client.DbClient.Inner.{sql_query_internal}
use incubator_horaedb_client.DbClient.RouteBased.{get_router}
use incubator_horaedb_client.DbClient.RouteBased.Clients.{get_or_create}
use incubator_horaedb_client.DbClient.RouteBased.Partition.{no_parts, partition}
use incubator_horaedb_client.DbClient.RouteBased.Partition.Placed.{IsPlaced, partition-IsPlaced}
use incubator_horaedb_client.DbClient.RouteBased.Query
use incubator_horaedb_client.DbClient.RouteBased.Query.Evicts.{IsSent, sql_query-IsSent}
use incubator_horaedb_client.DbClient.RouteBased.Write.{Results, merged, with_unrouted}
use incubator_horaedb_client.DbClient.RouteBased.Write.Merged.{totals, merged-with_unrouted}
use incubator_horaedb_client.Tests.Servers.{
  in_order, route_orders, server, three_rows, env, ctx, cpu, query, router, client, point, groups,
}

route_total_example :
    ((route in_order (router (ok three_rows)) (text "cpu" ∷ []) ctx 0 ≡ none)
      ↔ (ctx.database ≡ none))
    × ((ts : Targets) (r' : RouterImpl Text ℕ) (w' : ℕ)
        → route in_order (router (ok three_rows)) (text "cpu" ∷ []) ctx 0 ≡ some (ok ts, r', w')
        → length ts ≡ 1)
route_total_example = route_total in_order (router (ok three_rows)) (text "cpu" ∷ []) ctx 0

resolve_database_lem_example :
    ((resolve_database {X = Text} ctx (some (text "x")) ≡ err no_database)
      ↔ (first_of ctx.database (some (text "x")) ≡ none))
    × ((ctx' : RpcContext)
        → (resolve_database {X = Text} ctx (some (text "x")) ≡ ok ctx') ↔ (
            (database : Text) × (first_of ctx.database (some (text "x")) ≡ some database)
            × (ctx' ≡ record { database = some database; timeout = none })))
resolve_database_lem_example = resolve_database_lem Text ctx (some (text "x"))

sql_query-IsSent_example :
    IsSent
      (env (ok three_rows))
      (text "cpu" ∷ [])
      (router (ok three_rows))
      cpu
      (ok (record { affected_rows = 3; rows = [] }))
      (record { endpoint = text "h:1"; inner_client = some (server (ok three_rows)) })
      2
      (Query.sql_query (env (ok three_rows)) route_orders (client (ok three_rows)) ctx query 0)
unfolding resolve_database get_router route sql_query_internal get_or_create HashMap.get text_beq
    try_from show_u32
sql_query-IsSent_example =
    sql_query-IsSent (env (ok three_rows)) route_orders (client (ok three_rows))
      (client (ok three_rows)) ctx ctx query 0 0 1 2 (router (ok three_rows))
      (router (ok three_rows)) cpu [] (ok (record { affected_rows = 3; rows = [] }))
      (record { endpoint = text "h:1"; inner_client = some (server (ok three_rows)) }) refl refl
      refl refl refl

partition-IsPlaced_example :
    IsPlaced groups no_parts
      (some cpu ∷ none ∷ [])
      (text "cpu" ∷ text "mem" ∷ [])
      (partition groups no_parts (some cpu ∷ none ∷ []) (text "cpu" ∷ text "mem" ∷ []))
unfolding HashMap.get text_beq
partition-IsPlaced_example =
    partition-IsPlaced groups no_parts (some cpu ∷ none ∷ []) (text "cpu" ∷ text "mem" ∷ [])
      ((point (text "cpu") ∷ [], refl), ((point (text "mem") ∷ [], refl), tt))

abbrev results : Results Text
results = (text "cpu" ∷ [], ok (record { success = 1; failed = 0 })) ∷ []

merged-with_unrouted_example :
    (((text "mem" ∷ []) ≡ [] × All IsOk results)
      → merged (with_unrouted (text "mem" ∷ []) results) ≡ ok (record { success = 1; failed = 0 }))
    × (¬ ((text "mem" ∷ []) ≡ [] × All IsOk results)
        → merged (with_unrouted (text "mem" ∷ []) results)
          ≡ err (
              route_based_write_error
                (written (with_unrouted (text "mem" ∷ []) results))
                (totals (with_unrouted (text "mem" ∷ []) results))
                (failures (with_unrouted (text "mem" ∷ []) results))))
merged-with_unrouted_example = merged-with_unrouted (text "mem" ∷ []) results
