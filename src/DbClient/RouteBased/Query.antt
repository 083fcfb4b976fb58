-- ===== src/DbClient/RouteBased/Query.antt =====
-- `sql_query` of src/db_client/route_based.rs.
pub mod Panics
pub mod Evicts
use incubator_horaedb_client.Prelude.{
  Option, none, some, List, [], ◌∷◌, Text, text, is_empty, if◌then◌else◌,
}
use incubator_horaedb_client.Errors.{Result, ok, err, unknown}
use incubator_horaedb_client.Model.Route.{Endpoint}
use incubator_horaedb_client.Model.SqlQuery
use incubator_horaedb_client.Model.SqlQuery.Response
use incubator_horaedb_client.RpcClient.{RpcContext}
use incubator_horaedb_client.Router
use incubator_horaedb_client.Router.{RouterImpl, Targets, evict}
use incubator_horaedb_client.DbClient.{resolve_database}
use incubator_horaedb_client.DbClient.Inner
use incubator_horaedb_client.DbClient.Inner.{Env, sql_query_internal}
use incubator_horaedb_client.DbClient.RouteBased.{RouteBasedImpl, RouteOrders, get_router}
use incubator_horaedb_client.DbClient.RouteBased.Clients.{get_or_create, store}

module _ {X W : Type 0} (env : Env X W) where
  -- The result with the client and the world after the call; `none` is a panic.
  abbrev pub Outcome : Type 0
  Outcome = Option (Result X Response.Response × RouteBasedImpl X W × W)

  -- After an error of the query the routes of its tables are evicted.
  abbrev finish :
      RouteBasedImpl X W
      → RouterImpl X W
      → List Text
      → Endpoint
      → Inner.Outcome env Response.Response
      → Outcome
  finish c r tables e none = none
  finish c r tables e (some (ok resp, inner, w)) =
      some (
        ok resp,
        record c { router = some r; standalone_pool = store c.standalone_pool e inner },
        w,
      )
  finish c r tables e (some (err x, inner, w)) = some (
    err x,
    record c { router = some (evict r tables); standalone_pool = store c.standalone_pool e inner },
    w,
  )

  abbrev send :
      RouteBasedImpl X W → RouterImpl X W → RpcContext → SqlQuery.Request → W → Endpoint → Outcome
  send c r ctx req w e =
      let (inner, pool) = get_or_create c.standalone_pool e in
      finish (record c { standalone_pool = pool }) r req.tables e
        (sql_query_internal env inner ctx req w)

  -- `eps[0].take()`, which panics on an empty list.
  abbrev routed :
      RouteBasedImpl X W
      → RpcContext
      → SqlQuery.Request
      → Option (Result X Targets × RouterImpl X W × W)
      → Outcome
  routed c ctx req none = none
  routed c ctx req (some (err e, r, w)) = some (err e, record c { router = some r }, w)
  routed c ctx req (some (ok [], r, w)) = none
  routed c ctx req (some (ok (none ∷ eps), r, w)) = some (
    err (unknown (text "table doesn't have corresponding endpoint")),
    record c { router = some r },
    w,
  )
  routed c ctx req (some (ok (some e ∷ eps), r, w)) = send c r ctx req w e

  module _ (orders : RouteOrders) where
    abbrev with_router :
        RpcContext → SqlQuery.Request → Result X (RouterImpl X W) × RouteBasedImpl X W × W → Outcome
    with_router ctx req (err e, c, w) = some (err e, c, w)
    with_router ctx req (ok r, c, w) =
        routed c ctx req (Router.route orders.misses r req.tables ctx w)

    unfoldable pub sql_query : RouteBasedImpl X W → RpcContext → SqlQuery.Request → W → Outcome
    unfolding resolve_database get_router get_or_create store sql_query_internal evict
    sql_query c ctx req w =
        if is_empty req.tables
        then some (
          err (unknown (text "tables in query request can't be empty in route based mode")),
          c,
          w,
        )
        else elim (resolve_database {X = X} ctx c.default_database) [
          | err e ↦ some (err e, c, w)
          | ok ctx' ↦ with_router ctx' req (get_router env c w)
        ]
