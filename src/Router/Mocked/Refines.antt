-- ===== src/Router/Mocked/Refines.antt =====
-- The router of src/router.rs over the mock client does what its clients are to see.
use incubator_horaedb_client.Prelude.{
  ℕ, suc, ◌≡◌, ◌∙◌, refl, sym, ap, subst, inl, inr, true, false, not, none, some, List, [], ◌∷◌,
  ◌++◌, Text, text_beq_iff, text_eq, length, get_elem?, get_elem?-middle, get_elem?-middle,
  eq_of_get_elem?, if◌then◌else◌, arith, All, Option-cases, Bool-cases,
}
use mathlib.Core.Option.{get_or}
use incubator_horaedb_client.Prelude.HashMap
use incubator_horaedb_client.Prelude.HashMap.{HashMap, HashOrder}
use incubator_horaedb_client.Errors.{ok}
use incubator_horaedb_client.Model.Route.{Endpoint}
use incubator_horaedb_client.RpcClient.{RpcContext, RouteRequest, Route, RpcClient}
use incubator_horaedb_client.RpcClient.Mock
use incubator_horaedb_client.RpcClient.Mock.{routes_of, route_of}
use incubator_horaedb_client.Router.{Targets, RouterImpl, keys, route_request, route, evict}
use incubator_horaedb_client.Router.Found.{found, found-misses, is_last, missed, WasMissed}
use incubator_horaedb_client.Router.Answers.{Routed, route-Routed}
use incubator_horaedb_client.Router.Evict.{is_in, get-evict}
use incubator_horaedb_client.Router.Mocked.{
  World, Action, changed, routed, evicted, perform, Known, learn, forget, lookups, ideal,
}
use incubator_horaedb_client.Router.Mocked.Keys.{
  is_in-arrange, is_in-keys, last_index-is_in, last_index_le, is_last_middle, answer-routes_of,
  is_in_middle, split_at,
}

-- The cache has what is known.
abbrev pub Represents : {X : Type 0} → RouterImpl X World → Known → Type 0
Represents r known = (t : Text) → HashMap.get t r.cache ≡ known t

length-lookups :
    (d : Endpoint) (w : World) (known : Known) (tables : List Text)
    → length (lookups d w known tables) ≡ length tables
length-lookups d w known [] = refl
length-lookups d w known (t ∷ ts) = ap suc (length-lookups d w known ts)

get_elem?-lookups :
    (d : Endpoint) (w : World) (known : Known) (before after : List Text) (t : Text)
    → get_elem? (lookups d w known (before ++ t ∷ after)) (length before)
      ≡ some (
          some (elim (known t) [
            | some e ↦ e
            | none ↦ if is_in t after then d else get_or (HashMap.get t w) d
          ]))
get_elem?-lookups d w known [] after t = refl
get_elem?-lookups d w known (x ∷ xs) after t = get_elem?-lookups d w known xs after t

module _ {X : Type 0} (order : HashOrder Text ℕ) (r : RouterImpl X World) (tables : List Text) where
  abbrev asked : List Text
  asked = keys (order.arrange (found r tables).1)

  -- The tables that are asked for are those given that are not in the cache.
  is_in-asked :
      (t : Text)
      → is_in t asked ≡ (elim (HashMap.get t r.cache) [ some e ↦ false | none ↦ is_in t tables ])
  is_in-asked t =
      is_in-arrange order t (found r tables).1
      ∙ is_in-keys t (found r tables).1
      ∙ (elim (Bool-cases (is_in t tables)) [
        | inl there ↦
            let (k, at, le) = last_index_le 0 t tables none there in
            ground (arith, found-misses r tables t, there, at)
        | inr nowhere ↦
            ground
              (arith, found-misses r tables t, nowhere, last_index-is_in 0 t tables none nowhere)
      ])

  was_missed : (t : Text) → is_in t asked ≡ true → (k : ℕ) × (missed r.cache tables t ≡ some k)
  was_missed t h = elim (Option-cases (HashMap.get t r.cache)) [
    | inr (e, hit) ↦ absurd (ground (arith, is_in-asked t, hit))
    | inl miss ↦
        let there : is_in t tables ≡ true = ground (arith, is_in-asked t, miss) in
        let (k, at, le) = last_index_le 0 t tables none there in (k, ground (arith, miss, at))
  ]

  all_missed :
      (w : World) (ms : List Text)
      → ((t : Text) → is_in t ms ≡ true → is_in t asked ≡ true)
      → All (WasMissed r.cache tables) (routes_of w ms)
  unfolding routes_of
  all_missed w [] h = tt
  all_missed w (x ∷ xs) h = elim (Option-cases (HashMap.get x w)) [
    | inl absent ↦
        let same : routes_of w xs ≡ routes_of w (x ∷ xs) = ground (arith, absent) in
        subst (All (WasMissed r.cache tables)) same (all_missed w xs (λ t i. h t (ground arith)))
    | inr (e, has) ↦
        let first : Route = record {
          table = x;
          endpoint = some (record { ip = e.addr; port = e.port });
        } in
        let same : first ∷ routes_of w xs ≡ routes_of w (x ∷ xs) = ground (arith, has) in
        subst (All (WasMissed r.cache tables)) same (
          λ present. was_missed x (h x (ground (arith, text_beq_iff x x))),
          all_missed w xs (λ t i. h t (ground arith)),
        )
  ]

  module _ (ctx : RpcContext) (database : Text) (w : World) where
    -- The call of the mock client's `route`.
    pub routed_lem :
        ctx.database ≡ some database
        → ((req : RouteRequest) → r.rpc_client.route ctx req w ≡ Mock.route ctx req w)
        → Routed order r tables (routes_of w asked) w (route order r tables ctx w)
    unfolding Mock.route route_request
    routed_lem named mock =
        route-Routed order r tables ctx database w w
          (record { header = none; routes = routes_of w asked }) named
          (mock (route_request order r tables database)) (all_missed w asked (λ t i. i))

    module _ (known : Known) (rep : Represents r known)
        (f : Routed order r tables (routes_of w asked) w (route order r tables ctx w)) where
      Represents-learn : Represents f.router (learn w tables known)
      Represents-learn t =
          f.cached t
          ∙ answer-routes_of w t asked (HashMap.get t r.cache)
          ∙ ground (arith, is_in-asked t, rep t)

      target :
          (before after : List Text) (t : Text)
          → before ++ t ∷ after ≡ tables
          → get_elem? f.targets (length before)
            ≡ some (
                some (elim (known t) [
                  | some e ↦ e
                  | none ↦
                      if is_in t after
                      then r.default_endpoint
                      else get_or (HashMap.get t w) r.default_endpoint
                ]))
      target before after t split =
          let at : get_elem? tables (length before) ≡ some t =
            subst (λ ts. get_elem? ts (length before) ≡ some t) split
              (get_elem?-middle before t after) in
          let last : is_last (length before) t tables ≡ not (is_in t after) =
            subst (λ ts. is_last (length before) t ts ≡ not (is_in t after)) split
              (is_last_middle t before after) in
          let there : is_in t tables ≡ true =
            subst (λ ts. is_in t ts ≡ true) split (is_in_middle t before after) in
          f.answered (length before) t at
          ∙ ground (
            arith,
            rep t,
            last,
            there,
            is_in-asked t,
            answer-routes_of w t asked (some r.default_endpoint),
          )

      -- The targets are those that a client is to see.
      targets-lookups : f.targets ≡ lookups r.default_endpoint w known tables
      targets-lookups =
          eq_of_get_elem? f.targets (lookups r.default_endpoint w known tables)
            (f.sized ∙ sym (length-lookups r.default_endpoint w known tables))
            (λ i inside.
              let (before, after, t, split, l) = split_at tables i (omega (arith, f.sized)) in
              subst
                (λ k.
                  get_elem? f.targets k ≡ get_elem? (lookups r.default_endpoint w known tables) k)
                l
                (target before after t split
                  ∙ sym (get_elem?-lookups r.default_endpoint w known before after t)
                  ∙ ap (λ ts. get_elem? (lookups r.default_endpoint w known ts) (length before))
                      split))

module _ {X : Type 0} (order : HashOrder Text ℕ) (ctx : RpcContext) (database : Text)
    (named : ctx.database ≡ some database) (d : Endpoint) (rpc : RpcClient X World)
    (mock : (req : RouteRequest) (w : World) → rpc.route ctx req w ≡ Mock.route ctx req w) where
  perform_routed :
      (r : RouterImpl X World) (w : World) (tables : List Text) (actions : List Action)
      (targets : Targets) (r' : RouterImpl X World) (rest : List Targets)
      → route order r tables ctx w ≡ some (ok targets, r', w)
      → (r'' : RouterImpl X World) (w'' : World)
      → perform order ctx r' w actions ≡ some (rest, r'', w'')
      → perform order ctx r w (routed tables ∷ actions) ≡ some (targets ∷ rest, r'', w'')
  perform_routed r w tables actions targets r' rest h r'' w'' k = ground (arith, h, k)

  -- The router over the mock client, whose route table may change at any time, refines a client that
  -- has no cache and knows endpoints of tables: if the context names a database and the cache at the
  -- start is what is known, then for every sequence of changes, routings and evictions no call of
  -- `route` panics or fails, and its targets are these: a table that is known has the endpoint that
  -- is known; a table that is not known has its endpoint in the route table of the time, or the
  -- default endpoint where the route table has none; but a table that is not known and occurs again
  -- later in the list has the default endpoint at its earlier places, whatever the route table has.
  -- What the route table had for a table at a call is known after the call, until an eviction of the
  -- table.
  pub perform-ideal :
      (actions : List Action) (r : RouterImpl X World) (known : Known) (w : World)
      → r.default_endpoint ≡ d
      → r.rpc_client ≡ rpc
      → Represents r known
      → (r' : RouterImpl X World) × (w' : World) × (perform order ctx r w actions
          ≡ some (ideal d w known actions, r', w'))
  unfolding evict
  perform-ideal [] r known w hd hr rep = (r, w, refl)
  perform-ideal (changed w1 ∷ actions) r known w hd hr rep =
      perform-ideal actions r known w1 hd hr rep
  perform-ideal (evicted tables ∷ actions) r known w hd hr rep =
      perform-ideal actions (evict r tables) (forget tables known) w hd hr
        (λ t. get-evict r tables t ∙ ap (λ o. if is_in t tables then none else o) (rep t))
  perform-ideal (routed tables ∷ actions) r known w hd hr rep =
      let f = routed_lem order r tables ctx database w named (λ req.
        subst (λ (c : RpcClient X World). c.route ctx req w ≡ Mock.route ctx req w) (sym hr)
          (mock req w)) in
      let (r', w', h) =
        perform-ideal actions f.router (learn w tables known) w
          (ap (λ (q : RouterImpl X World). q.default_endpoint) f.kept ∙ hd)
          (ap (λ (q : RouterImpl X World). q.rpc_client) f.kept ∙ hr)
          (Represents-learn order r tables ctx database w known rep f) in
      let seen : f.targets ≡ lookups d w known tables =
        targets-lookups order r tables ctx database w known rep f
        ∙ ap (λ e. lookups e w known tables) hd in
      (
        r',
        w',
        perform_routed r w tables actions f.targets f.router
              (ideal d w (learn w tables known) actions) f.returned r' w' h
            ∙ ap (λ ts. some (ts ∷ ideal d w (learn w tables known) actions, r', w')) seen,
      )
