-- ===== src/Router/Shared/Stale.antt =====
-- How evictions and the answers of the server meet in the cache of src/router.rs.
use incubator_horaedb_client.Prelude.{
  ℕ, ap, ◌≡◌, ◌∙◌, refl, some, List, [], ◌∷◌, Text, text_beq_iff, text_eq, arith,
}
use incubator_horaedb_client.Prelude.HashMap
use incubator_horaedb_client.Prelude.HashMap.{HashMap, HashOrder}
use incubator_horaedb_client.Errors.{ok}
use incubator_horaedb_client.Model.Route.{Endpoint, EndpointPb, from_pb}
use incubator_horaedb_client.RpcClient.{RpcContext, Route, RouteResponse, RpcClient}
use incubator_horaedb_client.Router.{Cache}
use incubator_horaedb_client.Router.Shared.{
  Task, entering, scanning, filling, evicting, returned, evicted, Request, routing, eviction,
  System, start, request_for, step, turn, run,
}

module _ {X W : Type 0} (order : HashOrder Text ℕ) (d : Endpoint) (rpc : RpcClient X W)
    (t : Text) where
  module _ (ctx : RpcContext) (db : Text) (pb : EndpointPb) (resp resp' : RouteResponse)
      (w w1 w2 : W) (named : ctx.database ≡ some db)
      (first : rpc.route ctx (request_for order db ((t, 0) ∷ [])) w ≡ (ok resp, w1))
      (answer : resp.routes ≡ record { table = t; endpoint = some pb } ∷ [])
      (second : rpc.route ctx (request_for order db []) w1 ≡ (ok resp', w2))
      (nothing : resp'.routes ≡ []) where
    abbrev system : Task X → Task X → Task X → Cache → W → System X W
    system a b c cache v = record { tasks = a ∷ b ∷ c ∷ []; cache = cache; world = v }

    abbrev missed : HashMap Text ℕ
    missed = (t, 0) ∷ []

    abbrev old : Endpoint
    old = from_pb pb

    abbrev named_route : Route
    named_route = record { table = t; endpoint = some pb }

    first_enters :
        (b c : Task X)
        → turn order d rpc 0 (system (entering ctx (t ∷ [])) b c [] w)
          ≡ system (scanning ctx db 0 (t ∷ []) (some d ∷ []) []) b c [] w
    unfolding turn step
    first_enters b c = ground (arith, named)

    first_misses :
        (b c : Task X)
        → turn order d rpc 0 (system (scanning ctx db 0 (t ∷ []) (some d ∷ []) []) b c [] w)
          ≡ system (scanning ctx db 1 [] (some d ∷ []) missed) b c [] w
    unfolding turn step HashMap.get HashMap.insert
    first_misses b c = refl

    first_asks :
        (b c : Task X)
        → turn order d rpc 0 (system (scanning ctx db 1 [] (some d ∷ []) missed) b c [] w)
          ≡ system (filling missed (named_route ∷ []) (some d ∷ [])) b c [] w1
    unfolding turn step
    first_asks b c = ground (arith, first, answer)

    evicts :
        (a c : Task X)
        → turn order d rpc 1 (turn order d rpc 1 (system a (evicting (t ∷ [])) c [] w1))
          ≡ system a evicted c [] w1
    unfolding turn step HashMap.remove
    evicts a c = refl

    first_fills :
        (b c : Task X)
        → turn order d rpc 0 (
            turn order d rpc 0 (system (filling missed (named_route ∷ []) (some d ∷ [])) b c [] w1))
          ≡ system (returned (ok (some old ∷ []))) b c ((t, old) ∷ []) w1
    unfolding turn step HashMap.get HashMap.insert
    first_fills b c = ground (arith, text_beq_iff t t)

    second_enters :
        (a b : Task X)
        → turn order d rpc 2 (system a b (entering ctx (t ∷ [])) ((t, old) ∷ []) w1)
          ≡ system a b (scanning ctx db 0 (t ∷ []) (some d ∷ []) []) ((t, old) ∷ []) w1
    unfolding turn step
    second_enters a b = ground (arith, named)

    second_hits :
        (a b : Task X)
        → turn order d rpc 2
            (system a b (scanning ctx db 0 (t ∷ []) (some d ∷ []) []) ((t, old) ∷ []) w1)
          ≡ system a b (scanning ctx db 1 [] (some old ∷ []) []) ((t, old) ∷ []) w1
    unfolding turn step HashMap.get
    second_hits a b = ground (arith, text_beq_iff t t)

    second_returns :
        (a b : Task X)
        → turn order d rpc 2 (
            turn order d rpc 2
              (system a b (scanning ctx db 1 [] (some old ∷ []) []) ((t, old) ∷ []) w1))
          ≡ system a b (returned (ok (some old ∷ []))) ((t, old) ∷ []) w2
    unfolding turn step
    second_returns a b = ground (arith, second, nothing)

    abbrev race : List Request
    race = routing ctx (t ∷ []) ∷ eviction (t ∷ []) ∷ routing ctx (t ∷ []) ∷ []

    -- An eviction does not reach a call that has its answer already: of three calls for one table,
    -- with nothing cached, the first is answered with an endpoint, then the table is evicted, then
    -- the first caches what it was told, and the third, which enters after the eviction has returned,
    -- returns this endpoint without asking the server for the table.
    pub evict_too_early :
        (run order d rpc (0 ∷ 0 ∷ 0 ∷ 1 ∷ 1 ∷ []) (start [] w race)
          ≡ system
              (filling missed (named_route ∷ []) (some d ∷ []))
              evicted
              (entering ctx (t ∷ []))
              []
              w1)
        × (run order d rpc (0 ∷ 0 ∷ 0 ∷ 1 ∷ 1 ∷ 0 ∷ 0 ∷ 2 ∷ 2 ∷ 2 ∷ 2 ∷ []) (start [] w race)
            ≡ system
                (returned (ok (some old ∷ [])))
                evicted
                (returned (ok (some old ∷ [])))
                ((t, old) ∷ [])
                w2)
    unfolding run
    evict_too_early =
        let e = entering ctx (t ∷ []) in
        let b : Task X = evicting (t ∷ []) in
        let filling_now : Task X = filling missed (named_route ∷ []) (some d ∷ []) in
        let done : Task X = returned (ok (some old ∷ [])) in
        let early : run order d rpc (0 ∷ 0 ∷ 0 ∷ 1 ∷ 1 ∷ []) (start [] w race)
            ≡ system filling_now evicted e [] w1 =
          ap (run order d rpc (0 ∷ 0 ∷ 1 ∷ 1 ∷ [])) (first_enters b e)
          ∙ ap (run order d rpc (0 ∷ 1 ∷ 1 ∷ [])) (first_misses b e)
          ∙ ap (run order d rpc (1 ∷ 1 ∷ [])) (first_asks b e)
          ∙ evicts filling_now e in
        (
          early,
          ap (run order d rpc (0 ∷ 0 ∷ 2 ∷ 2 ∷ 2 ∷ 2 ∷ [])) early
              ∙ ap (run order d rpc (2 ∷ 2 ∷ 2 ∷ 2 ∷ [])) (first_fills evicted e)
              ∙ ap (run order d rpc (2 ∷ 2 ∷ 2 ∷ [])) (second_enters done evicted)
              ∙ ap (run order d rpc (2 ∷ 2 ∷ [])) (second_hits done evicted)
              ∙ second_returns done evicted,
        )
