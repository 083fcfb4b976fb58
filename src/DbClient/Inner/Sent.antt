-- ===== src/DbClient/Inner/Sent.antt =====
-- What a first write of src/db_client/inner.rs sends over a connection of
-- src/rpc_client/rpc_client_impl.rs.
use incubator_horaedb_client.Prelude.{
  ◌≡◌, ◌∙◌, refl, sym, ap, subst, some, List, Text, arith, Option-cases, inl, inr,
}
use incubator_horaedb_client.Errors.{good, Response, Result, ok, err}
use incubator_horaedb_client.RpcClient.{
  RpcContext, RpcClient, RpcClientFactory, WriteRequestPb, WriteResponsePb,
}
use incubator_horaedb_client.RpcClient.Impl.{
  RpcClientImpl, Transport, RpcClientImplFactory, as_rpc_client, build, write,
}
use incubator_horaedb_client.RpcClient.Impl.Calls.{IsAccepted, sent, calls_ok_iff}
use incubator_horaedb_client.RpcClient.Impl.Built.{IsBuilt, build_lem}
use incubator_horaedb_client.Write.Request
use incubator_horaedb_client.Write.PbBuilder.{build_request, WriteTableRequestPb}
use incubator_horaedb_client.DbClient.Inner.{
  Env, InnerClient, Outcome, new, get_or_try_init, filled, write_with, write_internal, from_pb,
}

module _ {X W U : Type 0} (t : Transport X W U) (factory : RpcClientImplFactory) where
  -- The factory as the trait `RpcClientFactory` has it.
  abbrev pub as_trait : Result X (RpcClientImpl X W) × W → Result X (RpcClient X W) × W
  as_trait (ok client, w) = (ok (as_rpc_client client), w)
  as_trait (err e, w) = (err e, w)

  abbrev pub grpc_factory : RpcClientFactory X W
  grpc_factory = record { build = λ endpoint w. as_trait (build t factory endpoint w) }

  module _ (env : Env X W) (endpoint : Text) (ctx : RpcContext) (req : Request.Request)
      (resp : Response) (w w' : W) where
    -- The connection was made as the factory makes it; then one message went to the server, with the
    -- database of the context and the tables of the request, and its answer is what was returned.
    pub record IsSent : Type 0 where
      pub client : RpcClientImpl X W
      pub between : W
      pub built : IsBuilt t factory endpoint w client between
      pub database : Text
      pub named : ctx.database ≡ some database
      pub tables : List WriteTableRequestPb
      pub encoded : build_request env.orders req ≡ some tables
      pub answer : WriteResponsePb
      pub delivered :
          client.channel.write
            (sent client ctx
              (record { context = some (record { database = database }); table_requests = tables })
              factory.rpc_config.default_write_timeout)
            between
          ≡ (good answer, w')
      pub accepted : IsAccepted answer.header
      pub counted : resp ≡ record { success = answer.success; failed = answer.failed }

    abbrev message : Text → List WriteTableRequestPb → WriteRequestPb
    message database tables = record {
      context = some (record { database = database });
      table_requests = tables;
    }

    module _ (client : RpcClientImpl X W) (v : W) (built : IsBuilt t factory endpoint w client v)
        (database : Text) (named : ctx.database ≡ some database) (tables : List WriteTableRequestPb)
        (encoded : build_request env.orders req ≡ some tables) where
      replied-IsSent :
          (reply : Result X WriteResponsePb × W) (c c' : InnerClient X W)
          → write client ctx (message database tables) v ≡ reply
          → ◌≡◌ {A = Outcome env Response}
              (some (from_pb env reply.0, c, reply.1))
              (some (ok resp, c', w'))
          → IsSent
      replied-IsSent (err e, v') c c' is h = cc
      replied-IsSent (ok pb, v') c c' is h =
          let same : v' ≡ w' = ground arith in
          let counts : ◌≡◌ {A = Response} (record { success = pb.success; failed = pb.failed })
              resp =
            ground arith in
          let (r, delivered, accepted, stripped) =
            ((calls_ok_iff client ctx).1 (message database tables) v w' pb).0
              (is ∙ ap (λ u. (ok pb, u)) same) in
          record {
            client = client;
            between = v;
            built = built;
            database = database;
            named = named;
            tables = tables;
            encoded = encoded;
            answer = r;
            delivered =
                subst
                  (λ d.
                    client.channel.write (sent client ctx (message database tables) d) v
                    ≡ (good r, w'))
                  built.write_timeout delivered;
            accepted = accepted;
            counted =
                sym counts
                ∙ ap (λ (p : WriteResponsePb). record { success = p.success; failed = p.failed })
                    (sym stripped);
          }

    built-IsSent :
        (database : Text) (built : Result X (RpcClientImpl X W) × W) (c' : InnerClient X W)
        → ctx.database ≡ some database
        → build t factory endpoint w ≡ built
        → write_with env ctx database req (filled env (new endpoint) (as_trait built))
          ≡ some (ok resp, c', w')
        → IsSent
    built-IsSent database (err e, v) c' named is h = cc
    built-IsSent database (ok client, v) c' named is h =
        let built = (build_lem t factory endpoint w v).0 client is in
        elim (Option-cases (build_request env.orders req)) [
          | inl panic ↦ absurd (ground (arith, panic))
          | inr (tables, encoded) ↦
              replied-IsSent client v built database named tables encoded
                (write client ctx (message database tables) v)
                (record (new endpoint) { inner_client = some (as_rpc_client client) }) c' refl
                (ground (arith, encoded, h))
        ]

    -- If the first write through a client of one server succeeds, the factory being that of gRPC
    -- clients, then the connection was made to its address as the factory does, one message went to
    -- the server, with the database of the context, the tables of the request, the timeout of the
    -- context or else of the settings and the metadata of the authorization, its answer was accepted,
    -- and the counts of this answer were returned.
    pub write_internal-IsSent :
        (c' : InnerClient X W)
        → env.factory ≡ grpc_factory
        → write_internal env (new endpoint) ctx req w ≡ some (ok resp, c', w')
        → IsSent
    unfolding write_internal get_or_try_init new
    write_internal-IsSent c' grpc h = elim (Option-cases ctx.database) [
      | inl missing ↦ absurd (ground (arith, missing))
      | inr (database, named) ↦ built-IsSent database (build t factory endpoint w) c' named refl (
          subst
            (λ (f : RpcClientFactory X W).
              write_with env ctx database req (filled env (new endpoint) (f.build endpoint w))
              ≡ some (ok resp, c', w'))
            grpc (ground (arith, named)))
    ]
