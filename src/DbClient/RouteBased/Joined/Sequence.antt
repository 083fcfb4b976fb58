-- ===== src/DbClient/RouteBased/Joined/Sequence.antt =====
-- When the servers do not disturb one another, the futures of a split write of
-- src/db_client/route_based.rs have the results of `send_all`, which runs them one after the other.
use incubator_horaedb_client.Prelude.{
  replicate, ℕ, zero, suc, ◌≤◌, ◌<◌, length, ◌≡◌, ◌≢◌, ◌∙◌, refl, sym, ap, subst, inl, inr, Option,
  none, some, List, [], ◌∷◌, map, Text, get_elem?, get_elem?-lt, arith, Option-cases,
}
use incubator_horaedb_client.Prelude.HashMap
use incubator_horaedb_client.Errors.{Response, Result}
use incubator_horaedb_client.Model.Route.{Endpoint, endpoint_eq, endpoint_beq_iff}
use incubator_horaedb_client.Write.Request.{Request}
use incubator_horaedb_client.RpcClient.{RpcContext}
use incubator_horaedb_client.DbClient.Inner.{Env, InnerClient, write_internal}
use incubator_horaedb_client.DbClient.RouteBased.Clients.{Pool, get_or_create, store}
use incubator_horaedb_client.DbClient.RouteBased.Partition.Kept.{AreWellFormed}
use incubator_horaedb_client.DbClient.RouteBased.Write.Panics.{sent_total}
use incubator_horaedb_client.DbClient.RouteBased.Write.{
  Results, Sent, zip, tables_of, create_all, send_all,
}
use incubator_horaedb_client.DbClient.RouteBased.Write.Created.{create_all_lem}
use incubator_horaedb_client.DbClient.RouteBased.Joined.{Future, ready, start, run}
use incubator_horaedb_client.DbClient.RouteBased.Joined.Local.{IsSeparate}
use incubator_horaedb_client.DbClient.RouteBased.Joined.Parts.{Part, AreDistinct, WriteAtHome}
use incubator_horaedb_client.DbClient.RouteBased.Joined.Order.{joined_alone}
use incubator_horaedb_client.DbClient.RouteBased.Joined.Repeated.{write_internal-IsRepeated}
use incubator_horaedb_client.Router.Shared.Finish.{turns_of}

-- The results of the futures with the tables that are noted for their parts, when all are ready.
abbrev with_result :
    {X : Type 0} → List Text → Result X Response → Option (Results X) → Option (Results X)
with_result tables r none = none
with_result tables r (some rest) = some ((tables, r) ∷ rest)

unfoldable pub collected :
    {X W : Type 0} → List (List Text) → List (Future X W) → Option (Results X)
collected [] futures = some []
collected (tables ∷ write_tables) (ready r client ∷ futures) =
    with_result tables r (collected write_tables futures)
collected (tables ∷ write_tables) _ = none

get_or_create-store :
    {X W : Type 0} (pool : Pool X W) (e e' : Endpoint) (c : InnerClient X W)
    → e ≢ e'
    → (get_or_create (store pool e c) e').0 ≡ (get_or_create pool e').0
unfolding get_or_create store
get_or_create-store pool e e' c differ =
    ground (arith, endpoint_beq_iff e e', HashMap.get-insert e e' c pool)

module _ {X W V : Type 0} (view : Text → W → V) (env : Env X W) (ctx : RpcContext)
    (separate : IsSeparate view env ctx) (client : Endpoint → InnerClient X W) (w0 : W) where
  -- The parts of a write, with the client of each endpoint.
  abbrev parts_of : List (Endpoint × Request) → List (Part X W)
  parts_of requests = map (λ (e, req). (client e, req)) requests

  get_elem?-parts_of :
      (requests : List (Endpoint × Request)) (i : ℕ) (e : Endpoint) (req : Request)
      → get_elem? requests i ≡ some (e, req)
      → get_elem? (parts_of requests) i ≡ some (client e, req)
  get_elem?-parts_of [] i e req h = cc
  get_elem?-parts_of ((e', req') ∷ requests) zero e req h = ground (arith, h)
  get_elem?-parts_of (_ ∷ requests) (suc i) e req h = get_elem?-parts_of requests i e req h

  -- Each result is that of a call in the world before the write.
  abbrev AreAlone : List (Endpoint × Request) → List (Result X Response) → Type 0
  AreAlone [] [] = Unit
  AreAlone ((e, req) ∷ requests) (r ∷ results) =
      ((c : InnerClient X W) × (w : W) × (write_internal env (client e) ctx req w0
          ≡ some (r, c, w)))
      × AreAlone requests results
  AreAlone _ _ = ⊥

  abbrev LooksSame : W → List (Part X W) → Type 0
  LooksSame v parts =
      (i : ℕ) (p : Part X W)
      → get_elem? parts i ≡ some p
      → view p.0.endpoint v ≡ view p.0.endpoint w0

  abbrev IsPooled : Pool X W → List (Endpoint × Request) → Type 0
  IsPooled pool requests =
      (i : ℕ) (e : Endpoint) (req : Request)
      → get_elem? requests i ≡ some (e, req)
      → (get_or_create pool e).0 ≡ client e

  send_all-AreAlone :
      (requests : List (Endpoint × Request)) (pool : Pool X W) (v : W) (s : Sent env)
      → AreDistinct view env ctx (parts_of requests)
      → WriteAtHome view env ctx (parts_of requests)
      → IsPooled pool requests
      → LooksSame v (parts_of requests)
      → send_all env ctx pool v requests ≡ some s
      → AreAlone requests s.results
  unfolding send_all
  send_all-AreAlone [] pool v s distinct home pooled same done =
      let empty : [] ≡ s.results = ground (arith, done) in subst (AreAlone []) empty tt
  send_all-AreAlone ((e, req) ∷ requests) pool v s distinct home pooled same done =
      elim (Option-cases (write_internal env (get_or_create pool e).0 ctx req v)) [
        | inl panic ↦ absurd (ground (arith, panic, done))
        | inr ((r, c, v'), ends) ↦
            elim (Option-cases (send_all env ctx (store pool e c) v' requests)) [
              | inl panic ↦ absurd (ground (arith, ends, panic, done))
              | inr (rest, later) ↦
                  let first =
                    write_internal-IsRepeated view env ctx separate (client e) req r c v v' w0
                      (λ handle has. home 0 (client e, req) handle refl has)
                      (same 0 (client e, req) refl)
                      (ap (λ q. write_internal env q ctx req v) (sym (pooled 0 e req refl))
                        ∙ ends) in
                  let others =
                    send_all-AreAlone requests (store pool e c) v' rest
                      (λ i j p q hp hq at. omega (arith, distinct (suc i) (suc j) p q hp hq at))
                      (λ i p handle at has. home (suc i) p handle at has)
                      (λ i e' req' at.
                        get_or_create-store pool e e' c (λ eq. absurd (
                          omega (
                            arith,
                            distinct 0 (suc i) (client e, req) (client e', req') refl
                                (get_elem?-parts_of requests i e' req' at)
                                (ap (λ a. (client a).endpoint) eq),
                          )))
                        ∙ pooled (suc i) e' req' at)
                      (λ i p at.
                        first.elsewhere p.0.endpoint (λ eq.
                          absurd
                            (omega (arith, distinct 0 (suc i) (client e, req) p refl at (sym eq))))
                        ∙ same (suc i) p at)
                      later in
                  let results : r ∷ rest.results ≡ s.results = ground (arith, ends, later, done) in
                  subst (AreAlone ((e, req) ∷ requests)) results
                    ((first.client', first.w', first.repeats), others)
            ]
      ]

  module _ (names_of : Endpoint × Request → List Text) where
    collected-AreAlone :
        (requests : List (Endpoint × Request)) (futures : List (Future X W))
        (results : List (Result X Response))
        → AreAlone requests results
        → ((i : ℕ) (p : Part X W) (r : Result X Response) (c : InnerClient X W) (w : W)
            → get_elem? (parts_of requests) i ≡ some p
            → write_internal env p.0 ctx p.1 w0 ≡ some (r, c, w)
            → get_elem? futures i ≡ some (ready r c))
        → collected (map names_of requests) futures ≡ some (zip (map names_of requests) results)
    unfolding collected
    collected-AreAlone [] futures [] h at = refl
    collected-AreAlone [] futures (_ ∷ results) h at = elim h [ ]
    collected-AreAlone (_ ∷ requests) futures [] h at = elim h [ ]
    collected-AreAlone ((e, req) ∷ requests) [] (r ∷ results) ((c, w, ends), h) at =
        cc (at 0 (client e, req) r c w refl ends)
    collected-AreAlone ((e, req) ∷ requests) (future ∷ futures) (r ∷ results) ((c, w, ends), h) at =
        let here : future ≡ ready r c = ground (arith, at 0 (client e, req) r c w refl ends) in
        let later =
          collected-AreAlone requests futures results h
            (λ i p r' c' w' of_part is. at (suc i) p r' c' w' of_part is) in
        ap (λ u. collected (map names_of ((e, req) ∷ requests)) (u ∷ futures)) here
        ∙ ground (arith, later)

  length-parts_of :
      (requests : List (Endpoint × Request)) → length (parts_of requests) ≡ length requests
  length-parts_of [] = refl
  length-parts_of (_ ∷ requests) = ap suc (length-parts_of requests)

module _ {X W V : Type 0} (view : Text → W → V) (env : Env X W) (ctx : RpcContext) (pool : Pool X W)
    (w0 : W) where
  -- The parts of a write, with the clients of the pool.
  abbrev pub pooled : List (Endpoint × Request) → List (Part X W)
  pooled requests = map (λ (e, req). ((get_or_create pool e).0, req)) requests

  -- If no two parts of a write have one address, a connection or a write at one address sees and
  -- changes nothing at another, the clients of the pool that are connected already write at their
  -- addresses, there is a database and the points of each part are well-formed, then noting the tables
  -- of each part does not panic, and the futures of the parts, polled in any order in which each has
  -- two turns or more, are all ready, with the results that running them one after the other has,
  -- each beside the tables of its part.
  pub collected-send_all :
      (database : Text) (requests : List (Endpoint × Request)) (schedule : List ℕ)
      → IsSeparate view env ctx
      → AreDistinct view env ctx (pooled requests)
      → WriteAtHome view env ctx (pooled requests)
      → ctx.database ≡ some database
      → AreWellFormed requests
      → ((i : ℕ) → i < length requests → 2 ≤ turns_of i schedule)
      → (pool' : Pool X W) × (create_all env 0 (replicate (length requests) []) pool requests
          ≡ some (map (tables_of env) requests, pool'))
        × (s : Sent env) × (send_all env ctx pool w0 requests ≡ some s)
        × (collected
              (map (tables_of env) requests)
              (run env ctx schedule (start (pooled requests) w0)).futures
            ≡ some (zip (map (tables_of env) requests) s.results))
  collected-send_all database requests schedule separate distinct home named well turns =
      elim (Option-cases (send_all env ctx pool w0 requests)) [
        | inl panic ↦
            absurd
              (sent_total env ctx (λ missing. cc (sym named ∙ missing)) pool w0 requests well panic)
        | inr (s, done) ↦ (
          (create_all_lem env pool requests).0,
          (create_all_lem env pool requests).1,
          s,
          done,
          collected-AreAlone view env ctx separate (λ e. (get_or_create pool e).0) w0
              (tables_of env) requests (run env ctx schedule (start (pooled requests) w0)).futures
              s.results
              (send_all-AreAlone view env ctx separate (λ e. (get_or_create pool e).0) w0 requests
                pool w0 s distinct home (λ i e req at. refl) (λ i p at. refl) done)
              (λ i p r c w at ends.
                joined_alone view env ctx (pooled requests) separate distinct w0 schedule i p r c w
                  home at ends
                  (turns i (
                    omega (
                      arith,
                      get_elem?-lt (pooled requests) i at,
                      length-parts_of view env ctx separate (λ e. (get_or_create pool e).0) w0
                          requests,
                    )))),
        )
      ]
