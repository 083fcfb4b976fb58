-- ===== src/DbClient/RouteBased/Write.antt =====
-- `write` of src/db_client/route_based.rs. The futures are run one after the other.
pub mod Panics
pub mod Merged
pub mod Created
use incubator_horaedb_client.Prelude.{
  ℕ, zero, suc, length, ltb, replicate, Option, none, some, List, [], ◌∷◌, ◌++◌, Text, text,
  is_empty, if◌then◌else◌,
}
use incubator_horaedb_client.Prelude.HashMap.{HashMap}
use incubator_horaedb_client.Errors.{
  Response, server, unknown, route_based_write_error, Result, ok, err, from_results, all_ok,
}
use incubator_horaedb_client.Util.{should_refresh}
use incubator_horaedb_client.Model.Route.{Endpoint}
use incubator_horaedb_client.Write.Request.{Request}
use incubator_horaedb_client.RpcClient.{RpcContext}
use incubator_horaedb_client.Router
use incubator_horaedb_client.Router.{RouterImpl, Targets, evict}
use incubator_horaedb_client.DbClient.{resolve_database}
use incubator_horaedb_client.DbClient.Inner.{Env, write_internal}
use incubator_horaedb_client.DbClient.RouteBased.{RouteBasedImpl, RouteOrders, get_router}
use incubator_horaedb_client.DbClient.RouteBased.Clients.{Pool, get_or_create, store}
use incubator_horaedb_client.DbClient.RouteBased.Partition.{Parts, no_parts, partition}

abbrev pub keys {κ} : {K : Type 0} {V : Type κ} → HashMap K V → List K
keys [] = []
keys ((k, v) ∷ m) = k ∷ keys m

-- The tables of each part, with the result of the part.
abbrev pub Results : Type 0 → Type 0
Results X = List (List Text × Result X Response)

abbrev pub zip : {A B : Type 0} → List A → List B → List (A × B)
zip [] bs = []
zip (a ∷ as') [] = []
zip (a ∷ as') (b ∷ bs) = (a, b) ∷ zip as' bs

-- The tables whose route is to be dropped from the cache after an error.
abbrev pub outdated : {X : Type 0} → List Text → Result X Response → List Text
outdated tables (err (server e)) = if should_refresh e.code e.msg then tables else []
outdated tables _ = []

-- The collection of `evicts`.
unfoldable pub evicts : {X : Type 0} → Results X → List Text
evicts [] = []
evicts ((tables, r) ∷ rest) = outdated tables r ++ evicts rest

-- The merge of the results into the result of the write.
unfoldable pub merged : {X : Type 0} → Results X → Result X Response
unfolding from_results all_ok
merged results =
    let e = from_results results in
    if all_ok e
    then ok e.ok_response
    else err (route_based_write_error e.ok_tables e.ok_response e.errors)

-- `write_tables[idx].extend(..)`.
abbrev pub extend_at : ℕ → List Text → List (List Text) → List (List Text)
extend_at idx names [] = []
extend_at zero names (tables ∷ write_tables) = (tables ++ names) ∷ write_tables
extend_at (suc idx) names (tables ∷ write_tables) = tables ∷ extend_at idx names write_tables

-- The part without endpoints, if there are such tables.
unfoldable pub with_unrouted : {X : Type 0} → List Text → Results X → Results X
with_unrouted tables results =
    if is_empty tables
    then results
    else results ++ (tables, err (unknown (text "tables don't have corresponding endpoints"))) ∷ []

module _ {X W : Type 0} (env : Env X W) where
  -- The tables of a part, in the order in which its map yields them.
  abbrev pub tables_of : Endpoint × Request → List Text
  tables_of (e, req) = keys (env.orders.groups.arrange req.point_groups)

  -- The clients of all parts are taken from the pool before anything is sent, and the tables of each
  -- part are put at its index; `none` is the panic of the assertion on the index.
  unfoldable pub create_all :
      ℕ
      → List (List Text)
      → Pool X W
      → List (Endpoint × Request)
      → Option (List (List Text) × Pool X W)
  unfolding get_or_create
  create_all idx write_tables pool [] = some (write_tables, pool)
  create_all idx write_tables pool ((e, req) ∷ parts) =
      let rest =
        create_all (suc idx) (extend_at idx (tables_of (e, req)) write_tables)
          (get_or_create pool e).1 parts in
      if ltb idx (length write_tables) then rest else none

  pub record Sent : Type 0 where
    pub results : List (Result X Response)
    pub pool : Pool X W
    pub world : W

  abbrev sent_first : Result X Response → Option Sent → Option Sent
  sent_first r none = none
  sent_first r (some s) = some (record s { results = r ∷ s.results })

  -- `join_all(futures)`; `none` is a panic.
  unfoldable pub send_all : RpcContext → Pool X W → W → List (Endpoint × Request) → Option Sent
  unfolding get_or_create store write_internal
  send_all ctx pool w [] = some (record { results = []; pool = pool; world = w })
  send_all ctx pool w ((e, req) ∷ parts) =
      elim (write_internal env (get_or_create pool e).0 ctx req w) [
        | none ↦ none
        | some (r, c, w') ↦ sent_first r (send_all ctx (store pool e c) w' parts)
      ]

  -- The result with the client and the world after the call; `none` is a panic.
  abbrev pub Outcome : Type 0
  Outcome = Option (Result X Response × RouteBasedImpl X W × W)

  abbrev finish :
      RouteBasedImpl X W → RouterImpl X W → List Text → List (List Text) → Option Sent → Outcome
  finish c r unrouted write_tables none = none
  finish c r unrouted write_tables (some s) =
      let results = with_unrouted unrouted (zip write_tables s.results) in
      some (
        merged results,
        record c { router = some (evict r (evicts results)); standalone_pool = s.pool },
        s.world,
      )

  abbrev send_created :
      RouteBasedImpl X W
      → RouterImpl X W
      → RpcContext
      → W
      → List Text
      → List (Endpoint × Request)
      → Option (List (List Text) × Pool X W)
      → Outcome
  send_created c r ctx w unrouted requests none = none
  send_created c r ctx w unrouted requests (some (write_tables, pool)) =
      finish c r unrouted write_tables (send_all ctx pool w requests)

  module _ (orders : RouteOrders) where
    abbrev send_parts :
        RouteBasedImpl X W → RouterImpl X W → RpcContext → W → Option Parts → Outcome
    send_parts c r ctx w none = none
    send_parts c r ctx w (some parts) =
        let requests = orders.endpoints.arrange parts.by_endpoint in
        send_created c r ctx w parts.no_endpoint requests
          (create_all 0 (replicate (length parts.by_endpoint) []) c.standalone_pool requests)

    abbrev routed :
        RouteBasedImpl X W
        → RpcContext
        → Request
        → List Text
        → Option (Result X Targets × RouterImpl X W × W)
        → Outcome
    routed c ctx req tables none = none
    routed c ctx req tables (some (err e, r, w)) = some (err e, record c { router = some r }, w)
    routed c ctx req tables (some (ok endpoints, r, w)) =
        send_parts c r ctx w (partition req.point_groups no_parts endpoints tables)

    abbrev with_router :
        RpcContext → Request → Result X (RouterImpl X W) × RouteBasedImpl X W × W → Outcome
    with_router ctx req (err e, c, w) = some (err e, c, w)
    with_router ctx req (ok r, c, w) =
        let tables = keys (orders.tables.arrange req.point_groups) in
        routed c ctx req tables (Router.route orders.misses r tables ctx w)

    unfoldable pub write : RouteBasedImpl X W → RpcContext → Request → W → Outcome
    unfolding resolve_database get_router partition send_all create_all with_unrouted evicts merged
        evict
    write c ctx req w = elim (resolve_database {X = X} ctx c.default_database) [
      | err e ↦ some (err e, c, w)
      | ok ctx' ↦ with_router ctx' req (get_router env c w)
    ]
