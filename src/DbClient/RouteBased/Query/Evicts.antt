-- ===== src/DbClient/RouteBased/Query/Evicts.antt =====
-- What `sql_query` of src/db_client/route_based.rs does once its tables are routed.
use incubator_horaedb_client.Prelude.{
  ◌≡◌, refl, false, Option, none, some, List, ◌∷◌, Text, text_eq, is_empty, if◌then◌else◌, arith,
}
use incubator_horaedb_client.Prelude.HashMap
use incubator_horaedb_client.Errors.{Result, ok, err}
use incubator_horaedb_client.Model.Route.{Endpoint, endpoint_eq, endpoint_beq_iff}
use incubator_horaedb_client.Model.SqlQuery
use incubator_horaedb_client.Model.SqlQuery.Response
use incubator_horaedb_client.RpcClient.{RpcContext}
use incubator_horaedb_client.Router
use incubator_horaedb_client.Router.{Cache, RouterImpl, Targets, evict}
use incubator_horaedb_client.Router.Evict.{is_in, get-evict}
use incubator_horaedb_client.DbClient.{resolve_database}
use incubator_horaedb_client.DbClient.Inner.{Env, InnerClient, sql_query_internal}
use incubator_horaedb_client.DbClient.RouteBased.{RouteBasedImpl, RouteOrders, get_router}
use incubator_horaedb_client.DbClient.RouteBased.Clients.{get_or_create, store}
use incubator_horaedb_client.DbClient.RouteBased.Query.{Outcome, finish, sql_query}

-- The route of a table that is kept after the result of a query.
abbrev pub kept : {X A : Type 0} → Result X A → List Text → Cache → Text → Option Endpoint
kept (ok a) tables cache t = HashMap.get t cache
kept (err e) tables cache t = if is_in t tables then none else HashMap.get t cache

-- The query returned this result; the router has these routes, and the pool has this client.
pub record IsSent {X W : Type 0} (env : Env X W) (tables : List Text) (r : RouterImpl X W)
    (e : Endpoint) (result : Result X Response.Response) (inner : InnerClient X W) (w : W)
    (outcome : Outcome env) : Type 0 where
  pub client : RouteBasedImpl X W
  pub router : RouterImpl X W
  pub returned : outcome ≡ some (result, client, w)
  pub routing : client.router ≡ some router
  pub routes : (t : Text) → HashMap.get t router.cache ≡ kept result tables r.cache t
  pub pooled : HashMap.get e client.standalone_pool ≡ some inner

module _ {X W : Type 0} (env : Env X W) where
  pooled_self :
      (c : RouteBasedImpl X W) (e : Endpoint) (inner : InnerClient X W)
      → HashMap.get e (store c.standalone_pool e inner) ≡ some inner
  unfolding store
  pooled_self c e inner =
      ground (arith, HashMap.get-insert e e inner c.standalone_pool, endpoint_beq_iff e e)

  finish-IsSent :
      (c : RouteBasedImpl X W) (tables : List Text) (r : RouterImpl X W) (e : Endpoint)
      (result : Result X Response.Response) (inner : InnerClient X W) (w : W)
      → IsSent env tables r e result inner w (finish env c r tables e (some (result, inner, w)))
  finish-IsSent c tables r e (ok resp) inner w = record {
    client = record c { router = some r; standalone_pool = store c.standalone_pool e inner };
    router = r;
    returned = refl;
    routing = refl;
    routes = λ t. refl;
    pooled = pooled_self c e inner;
  }
  finish-IsSent c tables r e (err x) inner w = record {
    client = record c {
      router = some (evict r tables);
      standalone_pool = store c.standalone_pool e inner;
    };
    router = evict r tables;
    returned = refl;
    routing = refl;
    routes = λ t. get-evict r tables t;
    pooled = pooled_self c e inner;
  }

  -- If a query names tables, a database is found, the router is there and routes the first table to
  -- an endpoint, then the query returns what the pool's client of that endpoint returns. After a
  -- success the cached routes stay; after an error those of the query's tables are gone and the
  -- others stay.
  pub sql_query-IsSent :
      (orders : RouteOrders) (c c' : RouteBasedImpl X W) (ctx ctx' : RpcContext)
      (req : SqlQuery.Request) (w w1 w2 w3 : W) (r r' : RouterImpl X W) (e : Endpoint)
      (eps : Targets) (result : Result X Response.Response) (inner : InnerClient X W)
      → is_empty req.tables ≡ false
      → resolve_database {X = X} ctx c.default_database ≡ ok ctx'
      → get_router env c w ≡ (ok r, c', w1)
      → Router.route orders.misses r req.tables ctx' w1 ≡ some (ok (some e ∷ eps), r', w2)
      → sql_query_internal env (get_or_create c'.standalone_pool e).0 ctx' req w2
        ≡ some (result, inner, w3)
      → IsSent env req.tables r' e result inner w3 (sql_query env orders c ctx req w)
  unfolding sql_query
  sql_query-IsSent orders c c' ctx ctx' req w w1 w2 w3 r r' e eps result inner h db handle to sent =
      rw (h, db, handle, to, sent)
        (finish-IsSent (record c' { standalone_pool = (get_or_create c'.standalone_pool e).1 })
          req.tables r' e result inner w3)
