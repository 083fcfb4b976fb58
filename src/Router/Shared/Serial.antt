-- ===== src/Router/Shared/Serial.antt =====
-- Calls of `route` and `evict` in src/router.rs one after another, as turns of the shared router.
use incubator_horaedb_client.Prelude.{
  ℕ, ◌≡◌, ◌∙◌, refl, sym, ap, Option, none, some, List, [], ◌∷◌, ◌++◌, map, Text, text_eq, length,
  replicate, arith,
}
use mathlib.Core.List.{append_assoc}
use incubator_horaedb_client.Prelude.HashMap.{HashMap, HashOrder}
use incubator_horaedb_client.Errors.{Result, ok, err}
use incubator_horaedb_client.Model.Route.{Endpoint}
use incubator_horaedb_client.RpcClient.{RpcContext, RouteResponse, RpcClient}
use incubator_horaedb_client.Router.{
  Cache, Targets, RouterImpl, route_request, after_call, route, evict,
}
use incubator_horaedb_client.Router.Found.{found, found_bounds}
use incubator_horaedb_client.Router.Total.{fill_misses-IsSound}
use incubator_horaedb_client.Router.Shared.{
  Task, entering, scanning, returned, evicted, panicked, Request, routing, eviction, begin, System,
  start, answered, request_for, step, turn, run,
}
use incubator_horaedb_client.Router.Shared.Alone.{
  Leads, there, later, run-Leads, scanning-Leads, filling-Leads, evicting-Leads,
}

module _ {X W : Type 0} (order : HashOrder Text ℕ) (d : Endpoint) (rpc : RpcClient X W) where
  abbrev router : Cache → RouterImpl X W
  router cache = record { default_endpoint = d; cache = cache; rpc_client = rpc }

  -- What a call of `route` or `evict` makes of its request, the cache and the world when it runs
  -- alone.
  abbrev settled : Cache → W → Option (Result X Targets × RouterImpl X W × W) → Task X × Cache × W
  settled cache w none = (panicked, cache, w)
  settled cache w (some (result, r, w')) = (returned result, r.cache, w')

  abbrev handle : Cache → W → Request → Task X × Cache × W
  handle cache w (routing ctx tables) = settled cache w (route order (router cache) tables ctx w)
  handle cache w (eviction tables) = (evicted, (evict (router cache) tables).cache, w)

  -- The requests one after another.
  abbrev pub serve : Cache → W → List Request → System X W
  serve cache w [] = record { tasks = []; cache = cache; world = w }
  serve cache w (q ∷ qs) =
      let (task, cache', w') = handle cache w q in
      let rest = serve cache' w' qs in
      record { tasks = task ∷ rest.tasks; cache = rest.cache; world = rest.world }

  module _ (ctx : RpcContext) (tables : List Text) (cache : Cache) (w : W) where
    -- The misses and the targets after the first loop.
    abbrev misses : HashMap Text ℕ
    misses = (found (router cache) tables).1

    abbrev targets : Targets
    targets = (found (router cache) tables).0

    -- After the call of the server.
    replied-Leads :
        (reply : Result X RouteResponse × W)
        → (λ (now : Task X × Cache × W).
              Leads order d rpc
                (settled cache w (after_call order (router cache) tables reply))
                now.0
                now.1
                now.2)
            (answered misses targets cache reply)
    replied-Leads (err e, w') = there refl
    replied-Leads (ok resp, w') =
        let sound =
          fill_misses-IsSound X misses resp.routes cache targets
            (found_bounds (router cache) tables) in
        let result : settled cache w (after_call order (router cache) tables (ok resp, w'))
            ≡ (returned sound.result.outcome, sound.result.cache, w') =
          ground (arith, sound.returned) in
        filling-Leads order d rpc _ misses resp.routes targets cache w' sound.result sound.returned
          (sym result)

    -- After the assertion.
    entered-Leads :
        (database : Option Text)
        → (λ (now : Task X × Cache × W).
              Leads order d rpc
                (settled cache w (elim database [
                  | none ↦ none
                  | some db ↦
                      after_call order
                        (router cache)
                        tables
                        (rpc.route ctx (route_request order (router cache) tables db) w)
                ]))
                now.0
                now.1
                now.2)
            (elim database [
              | none ↦ (panicked, cache, w)
              | some db ↦
                  (scanning ctx db 0 tables (replicate (length tables) (some d)) [], cache, w)
            ])
    unfolding route_request step
    entered-Leads none = there refl
    entered-Leads (some db) =
        scanning-Leads order d rpc _ ctx db 0 tables (replicate (length tables) (some d)) [] cache w
          (λ k. later (replied-Leads (rpc.route ctx (request_for order db misses) w)))

    entering-Leads :
        Leads order d rpc (handle cache w (routing ctx tables)) (entering ctx tables) cache w
    unfolding step route
    entering-Leads = later (entered-Leads ctx.database)

  begin-Leads :
      (cache : Cache) (w : W) (q : Request) → Leads order d rpc (handle cache w q) (begin q) cache w
  unfolding evict
  begin-Leads cache w (routing ctx tables) = entering-Leads ctx tables cache w
  begin-Leads cache w (eviction tables) = evicting-Leads order d rpc _ tables cache w refl

  run-append :
      (xs ys : List ℕ) (s : System X W)
      → run order d rpc (xs ++ ys) s ≡ run order d rpc ys (run order d rpc xs s)
  unfolding run
  run-append [] ys s = refl
  run-append (i ∷ xs) ys s = run-append xs ys (turn order d rpc i s)

  -- A system with some calls before those of another.
  abbrev after : List (Task X) → System X W → System X W
  after done s = record { tasks = done ++ s.tasks; cache = s.cache; world = s.world }

  after_cons :
      (done tasks : List (Task X)) (task : Task X) (cache : Cache) (w : W)
      → after done (record { tasks = task ∷ tasks; cache = cache; world = w })
        ≡ after (done ++ task ∷ []) (record { tasks = tasks; cache = cache; world = w })
  after_cons done tasks task cache w =
      ap (λ ts. record { tasks = ts; cache = cache; world = w })
        (sym (append_assoc done (task ∷ []) tasks))

  run-serve-after :
      (requests : List Request) (done : List (Task X)) (cache : Cache) (w : W)
      → (schedule : List ℕ) × (run order d rpc schedule (after done (start cache w requests))
          ≡ after done (serve cache w requests))
  unfolding run
  run-serve-after [] done cache w = ([], refl)
  run-serve-after (q ∷ qs) done cache w =
      let (task, cache', w') = handle cache w q in
      let (n, first) =
        run-Leads order d rpc (handle cache w q) done (map begin qs) (begin-Leads cache w q) in
      let (schedule, rest) = run-serve-after qs (done ++ task ∷ []) cache' w' in
      let last = serve cache' w' qs in
      (
        replicate n (length done) ++ schedule,
        run-append (replicate n (length done)) schedule (after done (start cache w (q ∷ qs)))
            ∙ ap (run order d rpc schedule) (first ∙ after_cons done (map begin qs) task cache' w')
            ∙ rest
            ∙ sym (after_cons done last.tasks task last.cache last.world),
      )

  -- Calls one after another, as `route` and `evict` describe them, are one of the orders that calls
  -- at the same time may take: for any requests there is a schedule that gives every call the result
  -- that it has when the calls follow one another in the order of the requests, and that leaves the
  -- same cache and the same world.
  pub run-serve :
      (requests : List Request) (cache : Cache) (w : W)
      → (schedule : List ℕ) × (run order d rpc schedule (start cache w requests)
          ≡ serve cache w requests)
  run-serve requests cache w = run-serve-after requests [] cache w
