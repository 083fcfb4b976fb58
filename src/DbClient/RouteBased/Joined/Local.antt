-- ===== src/DbClient/RouteBased/Joined/Local.antt =====
-- When the servers do not disturb one another, the order in which the futures of a split write of
-- src/db_client/route_based.rs are polled plays no part.
use incubator_horaedb_client.Prelude.{
  ◌≡◌, ◌≢◌, refl, sym, ap, subst, inl, inr, none, some, List, Text, arith, Option-cases,
}
use incubator_horaedb_client.Errors.{Result, ok, err}
use incubator_horaedb_client.Write.Request.{Request}
use incubator_horaedb_client.Write.PbBuilder.{build_request, WriteTableRequestPb}
use incubator_horaedb_client.RpcClient.{RpcContext, RpcClient, WriteRequestPb}
use incubator_horaedb_client.DbClient.Inner.{Env, InnerClient, get_or_try_init, filled, from_pb}
use incubator_horaedb_client.DbClient.RouteBased.Joined.{
  Future, sending, connected, ready, panicked, opened, step,
}

-- The part of the world at each address: an operation at one address sees and changes only its part.
module _ {W V : Type 0} (view : Text → W → V) where
  pub record IsLocal {A : Type 0} (address : Text) (operation : W → A × W) : Type 0 where
    pub same_result :
        (v w : W) → view address v ≡ view address w → (operation v).0 ≡ (operation w).0
    pub same_view :
        (v w : W)
        → view address v ≡ view address w
        → view address (operation v).1 ≡ view address (operation w).1
    pub elsewhere : (a : Text) (w : W) → a ≢ address → view a (operation w).1 ≡ view a w

  pure-IsLocal : {A : Type 0} (address : Text) (a : A) → IsLocal address (λ w. (a, w))
  pure-IsLocal address a = record {
    same_result = λ v w p. refl;
    same_view = λ v w p. p;
    elsewhere = λ a' w n. refl;
  }

  map-IsLocal :
      {A B : Type 0} (address : Text) (operation : W → A × W) (f : A → B)
      → IsLocal address operation
      → IsLocal address (λ w. (f (operation w).0, (operation w).1))
  map-IsLocal address operation f l = record {
    same_result = λ v w p. ap f (l.same_result v w p);
    same_view = l.same_view;
    elsewhere = l.elsewhere;
  }

  eq-IsLocal :
      {A : Type 0} (address : Text) (operation operation' : W → A × W)
      → ((w : W) → operation w ≡ operation' w)
      → IsLocal address operation
      → IsLocal address operation'
  eq-IsLocal address operation operation' h l =
      let same : operation ≡ operation' = λ i w. h w i in subst (IsLocal address) same l

  module _ {X : Type 0} (env : Env X W) (ctx : RpcContext) where
    abbrev pub WritesAt : Text → RpcClient X W → Type 0
    WritesAt address handle = (req : WriteRequestPb) → IsLocal address (handle.write ctx req)

    -- A connection is made at its address, and the client of a connection writes there.
    pub record IsSeparate : Type 0 where
      pub connects : (address : Text) → IsLocal address (env.factory.build address)
      pub writes :
          (address : Text) (w w' : W) (handle : RpcClient X W)
          → env.factory.build address w ≡ (ok handle, w')
          → WritesAt address handle

    -- The future works at this address.
    abbrev pub IsAt : Text → Future X W → Type 0
    IsAt address (sending client req) =
        (client.endpoint ≡ address)
        × ((handle : RpcClient X W) → client.inner_client ≡ some handle → WritesAt address handle)
    IsAt address (connected database handle client req) = WritesAt address handle
    IsAt address _ = Unit

    abbrev pub message : Text → List WriteTableRequestPb → WriteRequestPb
    message database pbs = record {
      context = some (record { database = database });
      table_requests = pbs;
    }

    -- What the result of a connection makes of a future.
    abbrev pub after_open : Text → InnerClient X W → Request → Result X (RpcClient X W) → Future X W
    after_open database client req (err e) = ready (err e) client
    after_open database client req (ok handle) =
        connected database handle (record client { inner_client = some handle }) req

    opened-filled :
        (database : Text) (client : InnerClient X W) (req : Request)
        (made : Result X (RpcClient X W) × W)
        → opened env ctx database req (filled env client made)
          ≡ (after_open database client req made.0, made.1)
    opened-filled database client req (err e, w) = refl
    opened-filled database client req (ok handle, w) = refl

    -- The turns of a future before its connection, and of one before its call.
    module _ (client : InnerClient X W) (req : Request) (w : W) where
      pub step-undatabased :
          ctx.database ≡ none → step env ctx (sending client req) w ≡ (panicked, w)
      unfolding step
      step-undatabased missing = ground (arith, missing)

      pub step-open :
          (database : Text)
          → ctx.database ≡ some database
          → client.inner_client ≡ none
          → step env ctx (sending client req) w ≡ (
            after_open database client req (env.factory.build client.endpoint w).0,
            (env.factory.build client.endpoint w).1,
          )
      unfolding step get_or_try_init
      step-open database named empty = ground (
        arith,
        named,
        empty,
        opened-filled database client req (env.factory.build client.endpoint w),
      )

      pub step-opened :
          (database : Text) (handle : RpcClient X W)
          → ctx.database ≡ some database
          → client.inner_client ≡ some handle
          → step env ctx (sending client req) w ≡ (connected database handle client req, w)
      unfolding step get_or_try_init
      step-opened database handle named has = ground (arith, named, has)

      pub step-unbuilt :
          (database : Text) (handle : RpcClient X W)
          → build_request env.orders req ≡ none
          → step env ctx (connected database handle client req) w ≡ (panicked, w)
      unfolding step
      step-unbuilt database handle panic = ground (arith, panic)

      pub step-sent :
          (database : Text) (handle : RpcClient X W) (pbs : List WriteTableRequestPb)
          → build_request env.orders req ≡ some pbs
          → step env ctx (connected database handle client req) w ≡ (
            ready (from_pb env (handle.write ctx (message database pbs) w).0) client,
            (handle.write ctx (message database pbs) w).1,
          )
      unfolding step
      step-sent database handle pbs made = ground (arith, made)

    module _ (separate : IsSeparate) (address : Text) where
      after_open-IsAt :
          (database : Text) (client : InnerClient X W) (req : Request) (w : W)
          (made : Result X (RpcClient X W) × W)
          → env.factory.build address w ≡ made
          → IsAt address (after_open database client req made.0)
      after_open-IsAt database client req w (err e, w') is = tt
      after_open-IsAt database client req w (ok handle, w') is =
          separate.writes address w w' handle is

      pub step-IsAt :
          (future : Future X W) (w : W)
          → IsAt address future
          → IsAt address (step env ctx future w).0
      unfolding step
      step-IsAt (sending client req) w (here, writes) = elim (Option-cases ctx.database) [
        | inl missing ↦
            subst (λ p. IsAt address p.0) (sym (step-undatabased client req w missing)) tt
        | inr (database, named) ↦ elim (Option-cases client.inner_client) [
          | inl empty ↦
              subst (λ p. IsAt address p.0) (sym (step-open client req w database named empty))
                (after_open-IsAt database client req w (env.factory.build client.endpoint w)
                  (ap (λ a. env.factory.build a w) (sym here)))
          | inr (handle, has) ↦
              subst (λ p. IsAt address p.0)
                (sym (step-opened client req w database handle named has)) (writes handle has)
        ]
      ]
      step-IsAt (connected database handle client req) w h =
          elim (Option-cases (build_request env.orders req)) [
            | inl panic ↦
                subst (λ p. IsAt address p.0)
                  (sym (step-unbuilt client req w database handle panic)) tt
            | inr (pbs, made) ↦
                subst (λ p. IsAt address p.0)
                  (sym (step-sent client req w database handle pbs made)) tt
          ]
      step-IsAt (ready r client) w h = tt
      step-IsAt panicked w h = tt

      pub step-IsLocal :
          (future : Future X W) → IsAt address future → IsLocal address (step env ctx future)
      unfolding step
      step-IsLocal (sending client req) (here, writes) = elim (Option-cases ctx.database) [
        | inl missing ↦
            eq-IsLocal address (λ w. (panicked, w)) (step env ctx (sending client req))
              (λ w. sym (step-undatabased client req w missing)) (pure-IsLocal address panicked)
        | inr (database, named) ↦ elim (Option-cases client.inner_client) [
          | inl empty ↦
              eq-IsLocal address
                (λ w. (
                  after_open database client req (env.factory.build client.endpoint w).0,
                  (env.factory.build client.endpoint w).1,
                ))
                (step env ctx (sending client req))
                (λ w. sym (step-open client req w database named empty))
                (map-IsLocal address (env.factory.build client.endpoint)
                  (after_open database client req)
                  (subst (λ a. IsLocal address (env.factory.build a)) (sym here)
                    (separate.connects address)))
          | inr (handle, has) ↦
              eq-IsLocal address (λ w. (connected database handle client req, w))
                (step env ctx (sending client req))
                (λ w. sym (step-opened client req w database handle named has))
                (pure-IsLocal address (connected database handle client req))
        ]
      ]
      step-IsLocal (connected database handle client req) writes =
          elim (Option-cases (build_request env.orders req)) [
            | inl panic ↦
                eq-IsLocal address (λ w. (panicked, w))
                  (step env ctx (connected database handle client req))
                  (λ w. sym (step-unbuilt client req w database handle panic))
                  (pure-IsLocal address panicked)
            | inr (pbs, made) ↦
                eq-IsLocal address
                  (λ w. (
                    ready (from_pb env (handle.write ctx (message database pbs) w).0) client,
                    (handle.write ctx (message database pbs) w).1,
                  ))
                  (step env ctx (connected database handle client req))
                  (λ w. sym (step-sent client req w database handle pbs made))
                  (map-IsLocal address (handle.write ctx (message database pbs))
                    (λ r. ready (from_pb env r) client) (writes (message database pbs)))
          ]
      step-IsLocal (ready r client) h = pure-IsLocal address (ready r client)
      step-IsLocal panicked h = pure-IsLocal address panicked
