-- ===== src/DbClient/Inner/Panics.antt =====
-- When a call of src/db_client/inner.rs can panic.
use incubator_horaedb_client.Prelude.{
  ◌∙◌, refl, ap, ◌≡◌, ◌≢◌, none, some, Text, arith, Option-cases, inl, inr,
}
use incubator_horaedb_client.Errors.{Result, ok, err}
use incubator_horaedb_client.Model.SqlQuery
use incubator_horaedb_client.Model.SqlQuery.Response.{try_from}
use incubator_horaedb_client.Model.SqlQuery.Response.Panics.{IsArrow, IsLarge, try_from-none_iff}
use incubator_horaedb_client.Write.Request
use incubator_horaedb_client.Write.PbBuilder.{build_request}
use incubator_horaedb_client.RpcClient.{
  RpcContext, RpcClient, SqlQueryRequestPb, SqlQueryResponsePb,
}
use incubator_horaedb_client.DbClient.Inner.{
  Env, InnerClient, get_or_try_init, query_with, sql_query_internal, write_with, write_internal,
  with_state, decoded,
}

module _ {X W : Type 0} (env : Env X W) where
  abbrev message : Text → SqlQuery.Request → SqlQueryRequestPb
  message database req = record {
    context = some (record { database = database });
    tables = req.tables;
    sql = req.sql;
  }

  -- The client of the server answers the query with a response that cannot be decoded, as a column
  -- that the code is to read has the type LargeUtf8 or LargeBinary.
  pub record AnswersLarge (c : InnerClient X W) (ctx : RpcContext) (req : SqlQuery.Request) (w : W)
      : Type 0 where
    pub database : Text
    pub named : ctx.database ≡ some database
    pub handle : RpcClient X W
    pub c' : InnerClient X W
    pub before : W
    pub connected : get_or_try_init env c w ≡ (ok handle, c', before)
    pub pb : SqlQueryResponsePb
    pub after : W
    pub answered : handle.sql_query ctx (message database req) before ≡ (ok pb, after)
    pub is_large : IsLarge env.decoders pb

  decoded_panic :
      (c : InnerClient X W) (w : W) (r : Result X SqlQueryResponsePb)
      → with_state env c w (decoded env r) ≡ none
      → (pb : SqlQueryResponsePb) × (r ≡ ok pb) × (try_from env.decoders pb ≡ none)
  decoded_panic c w (err e) h = cc
  decoded_panic c w (ok pb) h = elim (Option-cases (try_from env.decoders pb)) [
    | inl panic ↦ (pb, refl, panic)
    | inr (r, done) ↦ absurd (ground (arith, done))
  ]

  -- A query panics exactly when its context has no database or the answer cannot be decoded.
  module _ (documented : IsArrow env.decoders) (ctx : RpcContext) (req : SqlQuery.Request) where
    query_with_panic :
        (c : InnerClient X W) (w : W) (database : Text)
        (made : Result X (RpcClient X W) × InnerClient X W × W)
        → ctx.database ≡ some database
        → get_or_try_init env c w ≡ made
        → query_with env ctx database req made ≡ none
        → AnswersLarge c ctx req w
    query_with_panic c w database (err e, c', w') named is h = cc
    query_with_panic c w database (ok handle, c', w') named is h =
        let answer = handle.sql_query ctx (message database req) w' in
        let (pb, same, panic) = decoded_panic c' answer.1 answer.0 h in
        record {
          database = database;
          named = named;
          handle = handle;
          c' = c';
          before = w';
          connected = is;
          pb = pb;
          after = answer.1;
          answered = ap (λ (r : Result X SqlQueryResponsePb). (r, answer.1)) same;
          is_large = (try_from-none_iff env.decoders pb documented).0 panic;
        }

    pub sql_query_internal-none :
        (c : InnerClient X W) (w : W)
        → ctx.database ≢ none
        → sql_query_internal env c ctx req w ≡ none
        → AnswersLarge c ctx req w
    unfolding sql_query_internal
    sql_query_internal-none c w db h = elim (Option-cases ctx.database) [
      | inl missing ↦ absurd (db missing)
      | inr (database, has) ↦
          query_with_panic c w database (get_or_try_init env c w) has refl (ground (arith, has))
    ]

    pub AnswersLarge-none :
        (c : InnerClient X W) (w : W)
        → AnswersLarge c ctx req w
        → sql_query_internal env c ctx req w ≡ none
    unfolding sql_query_internal
    AnswersLarge-none c w a =
        let panic = (try_from-none_iff env.decoders a.pb documented).1 a.is_large in
        let opened : sql_query_internal env c ctx req w
            ≡ query_with env ctx a.database req (get_or_try_init env c w) =
          ground (arith, a.named) in
        opened
        ∙ ap (query_with env ctx a.database req) a.connected
        ∙ ap (λ (p : Result X SqlQueryResponsePb × W). with_state env a.c' p.1 (decoded env p.0))
            a.answered
        ∙ ap (with_state env a.c' a.after) panic

  write_with_panic :
      (ctx : RpcContext) (database : Text) (req : Request.Request)
      (handle : Result X (RpcClient X W) × InnerClient X W × W)
      → write_with env ctx database req handle ≡ none
      → build_request env.orders req ≡ none
  write_with_panic ctx database req (err e, c, w) h = cc
  write_with_panic ctx database req (ok client, c, w) h =
      elim (Option-cases (build_request env.orders req)) [
        | inl panic ↦ panic
        | inr (pbs, done) ↦ absurd (ground (arith, done))
      ]

  -- With a database in the context, only the building of the request can panic in a write.
  pub write_internal-none :
      (c : InnerClient X W) (ctx : RpcContext) (req : Request.Request) (w : W)
      → ctx.database ≢ none
      → write_internal env c ctx req w ≡ none
      → build_request env.orders req ≡ none
  unfolding write_internal
  write_internal-none c ctx req w db h = elim (Option-cases ctx.database) [
    | inl missing ↦ absurd (db missing)
    | inr (database, has) ↦
        write_with_panic ctx database req (get_or_try_init env c w) (ground (arith, has))
  ]
