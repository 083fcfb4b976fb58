-- ===== src/DbClient/RouteBased/Joined/Parts.antt =====
-- The turns of the futures of a split write of src/db_client/route_based.rs, when no two parts have one
-- address: a future stands where it would stand alone.
use incubator_horaedb_client.Prelude.{
  ℕ, zero, suc, ◌≡◌, ◌≢◌, ◌∙◌, refl, sym, ap, some, List, [], ◌∷◌, Text, get_elem?, arith,
}
use incubator_horaedb_client.Write.Request.{Request}
use incubator_horaedb_client.RpcClient.{RpcContext, RpcClient}
use incubator_horaedb_client.DbClient.Inner.{Env, InnerClient}
use incubator_horaedb_client.DbClient.RouteBased.Joined.{Future, sending, start, step}
use incubator_horaedb_client.DbClient.RouteBased.Joined.Local.{
  WritesAt, IsSeparate, IsAt, step-IsAt, step-IsLocal,
}
use incubator_horaedb_client.DbClient.RouteBased.Joined.Alone.{alone}

abbrev pub Part : Type 0 → Type 0 → Type 0
Part X W = InnerClient X W × Request

pub started :
    {X W : Type 0} (parts : List (Part X W)) (w : W) (i : ℕ) (future : Future X W)
    → get_elem? (start parts w).futures i ≡ some future
    → (p : Part X W) × (get_elem? parts i ≡ some p) × (sending p.0 p.1 ≡ future)
started [] w i future h = cc
started (p ∷ parts) w zero future h = (p, refl, ground arith)
started (p ∷ parts) w (suc i) future h = started parts w i future h

module _ {X W V : Type 0} (view : Text → W → V) (env : Env X W) (ctx : RpcContext)
    (parts : List (Part X W)) where
  -- No two parts have one address.
  abbrev pub AreDistinct : Type 0
  AreDistinct =
      (i j : ℕ) (p q : Part X W)
      → get_elem? parts i ≡ some p
      → get_elem? parts j ≡ some q
      → p.0.endpoint ≡ q.0.endpoint
      → i ≡ j

  -- The clients that have a connection already write at their addresses.
  abbrev pub WriteAtHome : Type 0
  WriteAtHome =
      (i : ℕ) (p : Part X W) (handle : RpcClient X W)
      → get_elem? parts i ≡ some p
      → p.0.inner_client ≡ some handle
      → WritesAt view env ctx p.0.endpoint handle

  -- The future stands where it would stand after so many turns alone, and its part of the world, too.
  pub record IsAlone (w0 : W) (turns : ℕ) (p : Part X W) (future : Future X W) (w : W)
      : Type 0 where
    pub same_future : (alone env ctx turns (sending p.0 p.1) w0).0 ≡ future
    pub same_view :
        view p.0.endpoint (alone env ctx turns (sending p.0 p.1) w0).1 ≡ view p.0.endpoint w

  -- The future at a position is that of its part.
  pub record IsFuture (w0 : W) (turns i : ℕ) (future : Future X W) (w : W) : Type 0 where
    pub part : Part X W
    pub of_part : get_elem? parts i ≡ some part
    pub at_home : IsAt view env ctx part.0.endpoint future
    pub alone_there : IsAlone w0 turns part future w

  module _ (separate : IsSeparate view env ctx) (distinct : AreDistinct) (w0 : W) where
    -- The future's own turn.
    pub own_turn :
        (n i : ℕ) (future : Future X W) (w : W)
        → IsFuture w0 n i future w
        → IsFuture w0 (suc n) i (step env ctx future w).0 (step env ctx future w).1
    unfolding alone
    own_turn n i future w f =
        let a = f.alone_there in
        let there = alone env ctx n (sending f.part.0 f.part.1) w0 in
        let l = step-IsLocal view env ctx separate f.part.0.endpoint future f.at_home in
        record {
          part = f.part;
          of_part = f.of_part;
          at_home = step-IsAt view env ctx separate f.part.0.endpoint future w f.at_home;
          alone_there = record {
            same_future =
                ap (λ u. (step env ctx u there.1).0) a.same_future
                ∙ l.same_result there.1 w a.same_view;
            same_view =
                ap (λ u. view f.part.0.endpoint (step env ctx u there.1).1) a.same_future
                ∙ l.same_view there.1 w a.same_view;
          };
        }

    -- Another future's turn.
    pub other_turn :
        (m n i j : ℕ) (future other : Future X W) (w : W)
        → j ≢ i
        → IsFuture w0 m j other w
        → IsFuture w0 n i future w
        → IsFuture w0 n i future (step env ctx other w).1
    other_turn m n i j future other w differ o f =
        let l = step-IsLocal view env ctx separate o.part.0.endpoint other o.at_home in
        record {
          part = f.part;
          of_part = f.of_part;
          at_home = f.at_home;
          alone_there = record {
            same_future = f.alone_there.same_future;
            same_view =
                f.alone_there.same_view
                ∙ sym (
                    l.elsewhere f.part.0.endpoint w
                      (λ same. differ (sym (distinct i j f.part o.part f.of_part o.of_part same))));
          };
        }
