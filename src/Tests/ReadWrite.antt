-- ===== src/Tests/ReadWrite.antt =====
-- Tests of examples/read_write.rs.
use incubator_horaedb_client.Prelude.{◌≡◌, refl, none, [], Text, text_beq}
use incubator_horaedb_client.Prelude.HashMap
use incubator_horaedb_client.Errors.{ok}
use incubator_horaedb_client.Model.Value.{Value}
use incubator_horaedb_client.Router.{route}
use incubator_horaedb_client.DbClient.RouteBased.Query
use incubator_horaedb_client.DbClient.RouteBased.Query.Panics.{IsAnsweredLarge}
use incubator_horaedb_client.Model.SqlQuery.Response.{try_from}
use incubator_horaedb_client.Example.{rpc_ctx, run}
use incubator_horaedb_client.Example.Runs.{OneFails, calls_of, route_based_client, run-none}
use incubator_horaedb_client.Tests.Servers.{route_orders, large_text, env, client}
use incubator_horaedb_client.Tests.Totals.{decoders-IsArrow}

abbrev debug : Value → Text
debug v = []

-- The server answers the first query with a record batch that has a LargeUtf8 column.
large_run :
    run
      (route_based_client (env (ok large_text)) route_orders)
      debug
      5
      rpc_ctx
      (client (ok large_text))
      0
    ≡ none
unfolding run Query.sql_query route HashMap.get text_beq rpc_ctx try_from
large_run = refl

run-none_example :
    OneFails
      (route_based_client (env (ok large_text)) route_orders)
      rpc_ctx
      (λ c req w. IsAnsweredLarge (env (ok large_text)) route_orders c rpc_ctx req w)
      (calls_of 5)
      (client (ok large_text))
      0
run-none_example =
    run-none (env (ok large_text)) route_orders debug 5 (client (ok large_text)) 0 decoders-IsArrow
      large_run
