-- ===== src/DbClient/RouteBased/Write/Panics.antt =====
-- When `write` of src/db_client/route_based.rs can panic.
use incubator_horaedb_client.Prelude.{
  map, length, replicate, ◌≡◌, ◌≢◌, ◌∙◌, sym, ap, refl, Option, none, some, List, [], ◌∷◌, Text,
  text_eq, text_beq_iff, arith, All, All-map, Option-cases, inl, inr,
}
use mathlib.Core.Logic.{∥∥₁_elim}
use mathlib.Core.HLevel.{⊥_prop, ×_prop, →_prop}
use mathlib.Core.List.Permᴰ
use incubator_horaedb_client.Prelude.Rearrange.{All-Permᴰ, length-Permᴰ}
use incubator_horaedb_client.Prelude.HashMap
use incubator_horaedb_client.Prelude.HashMap.{HashMap, HashOrder}
use incubator_horaedb_client.Errors.{Result, ok, err}
use incubator_horaedb_client.Model.Route.{Endpoint}
use incubator_horaedb_client.Write.Point.{Point}
use incubator_horaedb_client.Write.Request.{Request}
use incubator_horaedb_client.Write.PbBuilder.Decode.Total.{IsWellFormed, build_request_total}
use incubator_horaedb_client.DbClient.RouteBased.Partition.Kept.{
  AreWellFormed, partition-AreWellFormed,
}
use incubator_horaedb_client.DbClient.RouteBased.Write.Created.{create_all_lem}
use incubator_horaedb_client.RpcClient.{RpcContext}
use incubator_horaedb_client.Router
use incubator_horaedb_client.Router.{RouterImpl, Targets}
use incubator_horaedb_client.Router.Total.{route_total}
use incubator_horaedb_client.DbClient.Database.{resolve_database-named, resolve_database-cases}
use incubator_horaedb_client.DbClient.Inner.{Env, write_internal}
use incubator_horaedb_client.DbClient.Inner.Panics.{write_internal-none}
use incubator_horaedb_client.DbClient.RouteBased.{RouteBasedImpl, RouteOrders, get_router}
use incubator_horaedb_client.DbClient.RouteBased.Clients.{Pool, get_or_create, store}
use incubator_horaedb_client.DbClient.RouteBased.Partition.{Parts, no_parts}
use incubator_horaedb_client.DbClient.RouteBased.Partition.Placed.{HasGroup, partition-IsPlaced}
use incubator_horaedb_client.DbClient.RouteBased.Write.{
  keys, Sent, tables_of, create_all, send_all, finish, send_created, send_parts, routed,
  with_router, write,
}

abbrev IsPresent : HashMap Text (List Point) → Text × List Point → Type 0
IsPresent groups entry = HashMap.get entry.0 groups ≢ none

entries-IsPresent : (groups : HashMap Text (List Point)) → All (IsPresent groups) groups
unfolding HashMap.get
entries-IsPresent [] = tt
entries-IsPresent ((t, ps) ∷ groups) = (
  λ h. ground (arith, text_beq_iff t t),
  All-map (IsPresent groups) (IsPresent ((t, ps) ∷ groups)) groups (λ entry p h. p (ground (arith)))
      (entries-IsPresent groups),
)

keys-HasGroup :
    (groups entries : HashMap Text (List Point))
    → All (IsPresent groups) entries
    → All (HasGroup groups) (keys entries)
keys-HasGroup groups [] h = tt
keys-HasGroup groups ((t, ps) ∷ entries) (here, h) = (
  elim (Option-cases (HashMap.get t groups)) [
    | inl missing ↦ absurd (here missing)
    | inr found ↦ found
  ],
  keys-HasGroup groups entries h,
)

IsPresent-prop :
    (groups entries : HashMap Text (List Point)) → IsProp (All (IsPresent groups) entries)
IsPresent-prop groups [] = hlevel
IsPresent-prop groups (entry ∷ entries) = ×_prop (→_prop ⊥_prop) (IsPresent-prop groups entries)

-- Every table that a map of groups yields has a group.
keys_arranged :
    (order : HashOrder Text (List Point)) (groups : HashMap Text (List Point))
    → All (HasGroup groups) (keys (order.arrange groups))
keys_arranged order groups = keys-HasGroup groups (order.arrange groups) (
    ∥∥₁_elim (order.arrange-perm groups) (IsPresent-prop groups (order.arrange groups))
      (λ perm. All-Permᴰ (IsPresent groups) (Permᴰ.symm perm) (entries-IsPresent groups)))

module _ {X W : Type 0} (env : Env X W) (ctx : RpcContext) (named : ctx.database ≢ none) where
  pub sent_total :
      (pool : Pool X W) (w : W) (parts : List (Endpoint × Request))
      → AreWellFormed parts
      → send_all env ctx pool w parts ≢ none
  unfolding send_all
  sent_total pool w [] h p = cc
  sent_total pool w ((e, req) ∷ parts) (here, h) p =
      elim (Option-cases (write_internal env (get_or_create pool e).0 ctx req w)) [
        | inl panic ↦
            build_request_total env.orders req here
              (write_internal-none env (get_or_create pool e).0 ctx req w named panic)
        | inr ((r, c, w'), sent) ↦
            elim (Option-cases (send_all env ctx (store pool e c) w' parts)) [
              | inl later ↦ sent_total (store pool e c) w' parts h later
              | inr (s, done) ↦ absurd (ground (arith, sent, done))
            ]
      ]

  finish_panic :
      (c : RouteBasedImpl X W) (r : RouterImpl X W) (left : List Text)
      (write_tables : List (List Text)) (o : Option (Sent env))
      → finish env c r left write_tables o ≡ none
      → o ≡ none
  finish_panic c r left write_tables none h = refl
  finish_panic c r left write_tables (some s) h = cc

  module _ (orders : RouteOrders) (req : Request) (well : All IsWellFormed req.point_groups) where
    send_parts_total :
        (c : RouteBasedImpl X W) (r : RouterImpl X W) (w : W) (parts : Parts)
        → AreWellFormed parts.by_endpoint
        → send_parts env orders c r ctx w (some parts) ≢ none
    send_parts_total c r w parts h p =
        ∥∥₁_elim (orders.endpoints.arrange-perm parts.by_endpoint) ⊥_prop (λ perm.
          let requests = orders.endpoints.arrange parts.by_endpoint in
          let (pool, created) = create_all_lem env c.standalone_pool requests in
          let sized : length requests ≡ length parts.by_endpoint = length-Permᴰ perm in
          let reached : send_created env c r ctx w parts.no_endpoint requests
                (some (map (tables_of env) requests, pool))
              ≡ none =
            ap (send_created env c r ctx w parts.no_endpoint requests) (
              sym created
              ∙ ap (λ n. create_all env 0 (replicate n []) c.standalone_pool requests) sized)
            ∙ p in
          sent_total pool w requests
            (All-Permᴰ (λ (part : Endpoint × Request). All IsWellFormed part.1.point_groups)
              (Permᴰ.symm perm) h)
            (finish_panic c r parts.no_endpoint (map (tables_of env) requests) _ reached))

    routed_total :
        (c : RouteBasedImpl X W) (outcome : Option (Result X Targets × RouterImpl X W × W))
        → outcome ≢ none
        → routed env orders c ctx req (keys (orders.tables.arrange req.point_groups)) outcome ≢ none
    routed_total c none total h = total refl
    routed_total c (some (err e, r, w)) total h = cc
    routed_total c (some (ok endpoints, r, w)) total h =
        let tables = keys (orders.tables.arrange req.point_groups) in
        let placed =
          partition-IsPlaced req.point_groups no_parts endpoints tables
            (keys_arranged orders.tables req.point_groups) in
        send_parts_total c r w placed.parts'
          (partition-AreWellFormed req.point_groups no_parts placed.parts' endpoints tables well tt
            placed.returned)
          (ap (send_parts env orders c r ctx w) (sym placed.returned) ∙ h)

    with_router_total :
        (handle : Result X (RouterImpl X W) × RouteBasedImpl X W × W)
        → with_router env orders ctx req handle ≢ none
    with_router_total (err e, c, w) h = cc
    with_router_total (ok r, c, w) h =
        let tables = keys (orders.tables.arrange req.point_groups) in
        let (panics, _) = route_total orders.misses r tables ctx w in
        routed_total c (Router.route orders.misses r tables ctx w) (λ p. named (panics.0 p)) h

-- If the points of every group of a request are of the group's table and hold values in the ranges
-- of their types, and those of each group have fewer than 2 ^ 32 tags and fewer than 2 ^ 32 fields
-- together, then writing the request never panics, whatever the servers answer and whatever the
-- router has cached.
pub routed_write_total :
    {X W : Type 0} (env : Env X W) (orders : RouteOrders) (c : RouteBasedImpl X W)
    (ctx : RpcContext) (req : Request) (w : W)
    → All IsWellFormed req.point_groups
    → write env orders c ctx req w ≢ none
unfolding write
routed_write_total {X} env orders c ctx req w well h =
    elim (resolve_database-cases X ctx c.default_database) [
      | inl refused ↦ absurd (ground (arith, refused))
      | inr (ctx', chosen) ↦
          let named = resolve_database-named X ctx ctx' c.default_database chosen in
          with_router_total env ctx' named orders req well (get_router env c w)
            (ground (arith, chosen))
    ]
