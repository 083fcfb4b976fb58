-- ===== src/DbClient/RouteBased/Joined/Alone.antt =====
-- A future of a split write in src/db_client/route_based.rs that is polled alone is a call of
-- `write_internal` of src/db_client/inner.rs.
use incubator_horaedb_client.Prelude.{
  ℕ, zero, suc, ◌≡◌, ◌∙◌, refl, ap, Option, none, some, List, Text, arith,
}
use incubator_horaedb_client.Errors.{Response, Result, ok, err}
use incubator_horaedb_client.Write.Request.{Request}
use incubator_horaedb_client.Write.PbBuilder.{build_request, WriteTableRequestPb}
use incubator_horaedb_client.RpcClient.{RpcContext, RpcClient}
use incubator_horaedb_client.DbClient.Inner.{
  Env, InnerClient, Outcome, get_or_try_init, send, write_with, write_internal,
}
use incubator_horaedb_client.DbClient.RouteBased.Joined.{
  Future, sending, connected, ready, panicked, opened, sent, step,
}

module _ {X W : Type 0} (env : Env X W) (ctx : RpcContext) where
  -- `n` turns of a future, with no other future in between.
  unfoldable pub alone : ℕ → Future X W → W → Future X W × W
  alone zero future w = (future, w)
  alone (suc n) future w = let before = alone n future w in step env ctx before.0 before.1

  alone_first :
      (n : ℕ) (future : Future X W) (w : W)
      → alone (suc n) future w ≡ alone n (step env ctx future w).0 (step env ctx future w).1
  unfolding alone
  alone_first zero future w = refl
  alone_first (suc n) future w =
      ap (λ (p : Future X W × W). step env ctx p.0 p.1) (alone_first n future w)

  alone-ready :
      (n : ℕ) (r : Result X Response) (client : InnerClient X W) (w : W)
      → alone n (ready r client) w ≡ (ready r client, w)
  unfolding alone step
  alone-ready zero r client w = refl
  alone-ready (suc n) r client w =
      ap (λ (p : Future X W × W). step env ctx p.0 p.1) (alone-ready n r client w)

  -- What a future that has ended has come to.
  abbrev pub ended : Future X W × W → Outcome env Response
  ended (ready r client, w) = some (r, client, w)
  ended _ = none

  ended-sent :
      (database : Text) (handle : RpcClient X W) (client : InnerClient X W) (w : W)
      (made : Option (List WriteTableRequestPb))
      → ended (sent env ctx database handle client w made)
        ≡ send env ctx database handle client w made
  ended-sent database handle client w none = refl
  ended-sent database handle client w (some pbs) = refl

  ended-opened :
      (database : Text) (req : Request) (made : Result X (RpcClient X W) × InnerClient X W × W)
      → (λ (p : Future X W × W). ended (step env ctx p.0 p.1)) (opened env ctx database req made)
        ≡ write_with env ctx database req made
  unfolding step
  ended-opened database req (err e, client, w) = refl
  ended-opened database req (ok handle, client, w) =
      ended-sent database handle client w (build_request env.orders req)

  entered_lem :
      (client : InnerClient X W) (req : Request) (w : W) (database : Option Text)
      → (λ (p : Future X W × W). ended (step env ctx p.0 p.1))
          (elim database [
            | none ↦ (panicked, w)
            | some db ↦ opened env ctx db req (get_or_try_init env client w)
          ])
        ≡ elim database [
          | none ↦ none
          | some db ↦ write_with env ctx db req (get_or_try_init env client w)
        ]
  unfolding step
  entered_lem client req w none = refl
  entered_lem client req w (some db) = ended-opened db req (get_or_try_init env client w)

  -- Two turns are what `write_internal` does, its panics included.
  pub ended-alone :
      (client : InnerClient X W) (req : Request) (w : W)
      → ended (alone 2 (sending client req) w) ≡ write_internal env client ctx req w
  unfolding alone step write_internal
  ended-alone client req w = entered_lem client req w ctx.database

  pub ended-ready :
      (p : Future X W × W) (r : Result X Response) (client : InnerClient X W) (w : W)
      → ended p ≡ some (r, client, w)
      → p ≡ (ready r client, w)
  ended-ready (sending client' req, w') r client w h = cc
  ended-ready (connected database handle client' req, w') r client w h = cc
  ended-ready (ready r' client', w') r client w h = ground (arith, h)
  ended-ready (panicked, w') r client w h = cc

  -- A future that has been polled alone twice or more has the result of `write_internal`, if this
  -- does not panic.
  pub alone-write_internal :
      (r : Result X Response) (client' : InnerClient X W) (w' : W) (n : ℕ)
      (client : InnerClient X W) (req : Request) (w : W)
      → write_internal env client ctx req w ≡ some (r, client', w')
      → alone (suc (suc n)) (sending client req) w ≡ (ready r client', w')
  unfolding alone
  alone-write_internal r client' w' n client req w h =
      let first = step env ctx (sending client req) w in
      alone_first (suc n) (sending client req) w
      ∙ alone_first n first.0 first.1
      ∙ ap (λ (p : Future X W × W). alone n p.0 p.1)
          (ended-ready (alone 2 (sending client req) w) r client' w' (ended-alone client req w ∙ h))
      ∙ alone-ready n r client' w'
