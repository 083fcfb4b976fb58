-- ===== src/DbClient/RouteBased/Query/Panics.antt =====
-- When `sql_query` of src/db_client/route_based.rs can panic.
use incubator_horaedb_client.Prelude.{
  ◌≡◌, ◌≢◌, ◌↔◌, refl, false, Option, none, some, [], ◌∷◌, length, is_empty, arith, Bool-cases, inl,
  inr,
}
use incubator_horaedb_client.Errors.{Result, ok, err}
use incubator_horaedb_client.Model.Route.{Endpoint}
use incubator_horaedb_client.Model.SqlQuery
use incubator_horaedb_client.Model.SqlQuery.Response
use incubator_horaedb_client.Model.SqlQuery.Response.Panics.{IsArrow}
use incubator_horaedb_client.RpcClient.{RpcContext}
use incubator_horaedb_client.Router
use incubator_horaedb_client.Router.{RouterImpl, Targets}
use incubator_horaedb_client.Router.Total.{route_total}
use incubator_horaedb_client.DbClient.{resolve_database}
use incubator_horaedb_client.DbClient.Database.{resolve_database-named, resolve_database-cases}
use incubator_horaedb_client.DbClient.Inner
use incubator_horaedb_client.DbClient.Inner.{Env, InnerClient, sql_query_internal}
use incubator_horaedb_client.DbClient.Inner.Panics.{
  AnswersLarge, sql_query_internal-none, AnswersLarge-none,
}
use incubator_horaedb_client.DbClient.RouteBased.{RouteBasedImpl, RouteOrders, get_router}
use incubator_horaedb_client.DbClient.RouteBased.Clients.{get_or_create}
use incubator_horaedb_client.DbClient.RouteBased.Query.{finish, routed, with_router, sql_query}

-- The query names tables, a database is found, the router is there and routes the first table to an
-- endpoint, whose server is connected and answers with a response that cannot be decoded.
pub record IsAnsweredLarge {X W : Type 0} (env : Env X W) (orders : RouteOrders)
    (c : RouteBasedImpl X W) (ctx : RpcContext) (req : SqlQuery.Request) (w : W) : Type 0 where
  pub names_tables : is_empty req.tables ≡ false
  pub ctx' : RpcContext
  pub chosen : resolve_database {X = X} ctx c.default_database ≡ ok ctx'
  pub r : RouterImpl X W
  pub c' : RouteBasedImpl X W
  pub before : W
  pub has_router : get_router env c w ≡ (ok r, c', before)
  pub e : Endpoint
  pub eps : Targets
  pub r' : RouterImpl X W
  pub after : W
  pub is_routed :
      Router.route orders.misses r req.tables ctx' before ≡ some (ok (some e ∷ eps), r', after)
  pub answers : AnswersLarge env (get_or_create c'.standalone_pool e).0 ctx' req after

module _ {X W : Type 0} (env : Env X W) (documented : IsArrow env.decoders) (ctx : RpcContext)
    (named : ctx.database ≢ none) (req : SqlQuery.Request)
    (names_tables : is_empty req.tables ≡ false) where
  finish_panic :
      (c : RouteBasedImpl X W) (r : RouterImpl X W) (e : Endpoint)
      (reply : Inner.Outcome env Response.Response)
      → finish env c r req.tables e reply ≡ none
      → reply ≡ none
  finish_panic c r e none h = refl
  finish_panic c r e (some (ok resp, inner, w)) h = cc
  finish_panic c r e (some (err x, inner, w)) h = cc

  -- The first target of a call that is answered with a response that cannot be decoded.
  abbrev FirstLarge : RouteBasedImpl X W → Option (Result X Targets × RouterImpl X W × W) → Type 0
  FirstLarge c outcome =
      (e : Endpoint) × (eps : Targets) × (r' : RouterImpl X W) × (w : W) × (outcome
        ≡ some (ok (some e ∷ eps), r', w))
      × AnswersLarge env (get_or_create c.standalone_pool e).0 ctx req w

  routed_panic :
      (c : RouteBasedImpl X W) (outcome : Option (Result X Targets × RouterImpl X W × W))
      → outcome ≢ none
      → ((ts : Targets) (r : RouterImpl X W) (w : W)
          → outcome ≡ some (ok ts, r, w)
          → length ts ≡ length req.tables)
      → routed env c ctx req outcome ≡ none
      → FirstLarge c outcome
  routed_panic c none total sized h = absurd (total refl)
  routed_panic c (some (err e, r, w)) total sized h = cc
  routed_panic c (some (ok [], r, w)) total sized h =
      absurd (ground (arith, sized [] r w refl, names_tables))
  routed_panic c (some (ok (none ∷ eps), r, w)) total sized h = cc
  routed_panic c (some (ok (some e ∷ eps), r, w)) total sized h = (
    e,
    eps,
    r,
    w,
    refl,
    sql_query_internal-none env documented ctx req (get_or_create c.standalone_pool e).0 w named (
        finish_panic (record c { standalone_pool = (get_or_create c.standalone_pool e).1 }) r e _
          h),
  )

  with_router_panic :
      (orders : RouteOrders) (handle : Result X (RouterImpl X W) × RouteBasedImpl X W × W)
      → with_router env orders ctx req handle ≡ none
      → (r : RouterImpl X W) × (c : RouteBasedImpl X W) × (w : W) × (handle ≡ (ok r, c, w))
        × FirstLarge c (Router.route orders.misses r req.tables ctx w)
  with_router_panic orders (err e, c, w) h = cc
  with_router_panic orders (ok r, c, w) h =
      let (panics, sized) = route_total orders.misses r req.tables ctx w in
      (
        r,
        c,
        w,
        refl,
        routed_panic c (Router.route orders.misses r req.tables ctx w) (λ p. named (panics.0 p))
            sized h,
      )

-- If the record batches that are read are as the crate arrow documents them, a query panics exactly
-- when it names tables, a database is found, the router is there and routes the first table to an
-- endpoint, the server of the endpoint is connected and answers, and the answer is decoded to
-- record batches of which the first column that cannot be filled in has the type LargeUtf8 or
-- LargeBinary. The assertions on the database, the indices of the router and the access to the
-- first endpoint never fail.
pub routed_query-none_iff :
    {X W : Type 0} (env : Env X W) (orders : RouteOrders) (c : RouteBasedImpl X W)
    (ctx : RpcContext) (req : SqlQuery.Request) (w : W)
    → IsArrow env.decoders
    → (sql_query env orders c ctx req w ≡ none) ↔ IsAnsweredLarge env orders c ctx req w
unfolding sql_query
routed_query-none_iff {X} env orders c ctx req w documented = (
  λ h. elim (Bool-cases (is_empty req.tables)) [
    | inl empty ↦ absurd (ground (arith, empty))
    | inr names_tables ↦ elim (resolve_database-cases X ctx c.default_database) [
      | inl refused ↦ absurd (ground (arith, names_tables, refused))
      | inr (ctx', chosen) ↦
          let named = resolve_database-named X ctx ctx' c.default_database chosen in
          let (r, c', before, has_router, (e, eps, r', after, is_routed, answers)) =
            with_router_panic env documented ctx' named req names_tables orders (get_router env c w)
              (ground (arith, names_tables, chosen)) in
          record {
            names_tables = names_tables;
            ctx' = ctx';
            chosen = chosen;
            r = r;
            c' = c';
            before = before;
            has_router = has_router;
            e = e;
            eps = eps;
            r' = r';
            after = after;
            is_routed = is_routed;
            answers = answers;
          }
    ]
  ],
  λ a. ground (
    arith,
    a.names_tables,
    a.chosen,
    a.has_router,
    a.is_routed,
    AnswersLarge-none env documented a.ctx' req (get_or_create a.c'.standalone_pool a.e).0 a.after
        a.answers,
  ),
)
