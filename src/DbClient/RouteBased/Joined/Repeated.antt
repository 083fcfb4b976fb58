-- ===== src/DbClient/RouteBased/Joined/Repeated.antt =====
-- A call of `write_internal` of src/db_client/inner.rs in two worlds that look the same at its address.
use incubator_horaedb_client.Prelude.{◌≡◌, ◌≢◌, ◌∙◌, refl, sym, ap, some, Text}
use incubator_horaedb_client.Errors.{Response, Result}
use incubator_horaedb_client.Model.Route.{endpoint_eq}
use incubator_horaedb_client.Write.Request.{Request}
use incubator_horaedb_client.RpcClient.{RpcContext, RpcClient}
use incubator_horaedb_client.DbClient.Inner.{Env, InnerClient, write_internal}
use incubator_horaedb_client.DbClient.RouteBased.Joined.{Future, sending, ready, step}
use incubator_horaedb_client.DbClient.RouteBased.Joined.Local.{
  IsLocal, WritesAt, IsSeparate, IsAt, step-IsAt, step-IsLocal,
}
use incubator_horaedb_client.DbClient.RouteBased.Joined.Alone.{
  alone, ended, ended-alone, ended-ready,
}

module _ {X W V : Type 0} (view : Text → W → V) (env : Env X W) (ctx : RpcContext)
    (separate : IsSeparate view env ctx) where
  two_turns-IsLocal :
      (address : Text) (future : Future X W)
      → IsAt view env ctx address future
      → IsLocal view address (alone env ctx 2 future)
  unfolding alone
  two_turns-IsLocal address future at =
      let l = step-IsLocal view env ctx separate address future at in
      let next : (w : W) → IsLocal view address (step env ctx (step env ctx future w).0) = λ w.
        step-IsLocal view env ctx separate address (step env ctx future w).0
          (step-IsAt view env ctx separate address future w at) in
      record {
        same_result = λ v w p.
            (next v).same_result (step env ctx future v).1 (step env ctx future w).1
              (l.same_view v w p)
            ∙ ap (λ u. (step env ctx u (step env ctx future w).1).0) (l.same_result v w p);
        same_view = λ v w p.
            (next v).same_view (step env ctx future v).1 (step env ctx future w).1
              (l.same_view v w p)
            ∙ ap (λ u. view address (step env ctx u (step env ctx future w).1).1)
                (l.same_result v w p);
        elsewhere = λ a w differ.
            (next w).elsewhere a (step env ctx future w).1 differ ∙ l.elsewhere a w differ;
      }

  -- A call of `write_internal` in a world that looks the same at its address.
  pub record IsRepeated (client : InnerClient X W) (req : Request) (r : Result X Response)
      (v v' w : W) : Type 0 where
    pub client' : InnerClient X W
    pub w' : W
    pub repeats : write_internal env client ctx req w ≡ some (r, client', w')
    pub elsewhere : (a : Text) → a ≢ client.endpoint → view a v' ≡ view a v

  pub write_internal-IsRepeated :
      (client : InnerClient X W) (req : Request) (r : Result X Response) (client' : InnerClient X W)
      (v v' w : W)
      → ((handle : RpcClient X W)
          → client.inner_client ≡ some handle
          → WritesAt view env ctx client.endpoint handle)
      → view client.endpoint v ≡ view client.endpoint w
      → write_internal env client ctx req v ≡ some (r, client', v')
      → IsRepeated client req r v v' w
  write_internal-IsRepeated client req r client' v v' w home same ends =
      let f = sending client req in
      let l = two_turns-IsLocal client.endpoint f (refl, home) in
      let two : alone env ctx 2 f v ≡ (ready r client', v') =
        ended-ready env ctx (alone env ctx 2 f v) r client' v'
          (ended-alone env ctx client req v ∙ ends) in
      record {
        client' = client';
        w' = (alone env ctx 2 f w).1;
        repeats =
            sym (ended-alone env ctx client req w)
            ∙ ap (λ u. ended env ctx (u, (alone env ctx 2 f w).1))
                (sym (l.same_result v w same) ∙ ap (λ (p : Future X W × W). p.0) two);
        elsewhere =
            λ a differ. ap (λ (p : Future X W × W). view a p.1) (sym two) ∙ l.elsewhere a v differ;
      }
