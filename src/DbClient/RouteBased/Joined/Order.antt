-- ===== src/DbClient/RouteBased/Joined/Order.antt =====
-- The order in which the futures of a split write of src/db_client/route_based.rs are polled plays no
-- part when the servers do not disturb one another.
use native.Mathlib.Decide.{ℕ_discrete}
use incubator_horaedb_client.Prelude.{
  ℕ, suc, ◌+◌, ◌-◌, ◌≤◌, if◌then◌else◌, ◌==◌, ==_iff, length, length-set, ◌≡◌, ◌≢◌, ◌∙◌, refl, sym,
  ap, subst, inl, inr, some, List, [], ◌∷◌, Text, get_elem?, get_elem?-lt, get_elem?-none,
  get_elem?-set_self, get_elem?-set_ne, set, arith, Option-cases,
}
use incubator_horaedb_client.Errors.{Response, Result}
use incubator_horaedb_client.RpcClient.{RpcContext}
use incubator_horaedb_client.DbClient.Inner.{Env, InnerClient, write_internal}
use incubator_horaedb_client.DbClient.RouteBased.Joined.{
  Future, sending, ready, Join, start, step, turn, run,
}
use incubator_horaedb_client.DbClient.RouteBased.Joined.Local.{IsSeparate, IsAt}
use incubator_horaedb_client.DbClient.RouteBased.Joined.Alone.{alone, alone-write_internal}
use incubator_horaedb_client.DbClient.RouteBased.Joined.Parts.{
  Part, started, AreDistinct, WriteAtHome, IsFuture, own_turn, other_turn,
}
use incubator_horaedb_client.Router.Shared.Finish.{turns_of}

module _ {X W V : Type 0} (view : Text → W → V) (env : Env X W) (ctx : RpcContext)
    (parts : List (Part X W)) where
  abbrev IsInv : W → (ℕ → ℕ) → Join X W → Type 0
  IsInv w0 turns s =
      (i : ℕ) (future : Future X W)
      → get_elem? s.futures i ≡ some future
      → IsFuture view env ctx parts w0 (turns i) i future s.world

  module _ (separate : IsSeparate view env ctx) (distinct : AreDistinct view env ctx parts)
      (w0 : W) where
    abbrev counted : (ℕ → ℕ) → ℕ → ℕ → ℕ
    counted turns j i = if i == j then suc (turns i) else turns i

    counted_self : (turns : ℕ → ℕ) (j i : ℕ) → j ≡ i → suc (turns i) ≡ counted turns j i
    counted_self turns j i same = ground (arith, ==_iff i j)

    counted_other : (turns : ℕ → ℕ) (j i : ℕ) → j ≢ i → turns i ≡ counted turns j i
    counted_other turns j i differ = ground (arith, ==_iff i j)

    after_turn :
        (turns : ℕ → ℕ) (j i : ℕ) (s : Join X W)
        → IsInv w0 turns s
        → (other : Future X W) → get_elem? s.futures j ≡ some other
        → (future : Future X W)
        → get_elem? (set s.futures j (step env ctx other s.world).0) i ≡ some future
        → IsFuture view env ctx parts w0 (counted turns j i) i future (step env ctx other s.world).1
    after_turn turns j i s inv other there future at = elim (ℕ_discrete j i) [
      | yes same ↦
          let next = step env ctx other s.world in
          let here : get_elem? (set s.futures j next.0) i ≡ some next.0 =
            subst (λ k. get_elem? (set s.futures j next.0) k ≡ some next.0) same
              (get_elem?-set_self s.futures j next.0 (get_elem?-lt s.futures j there)) in
          let is : next.0 ≡ future = cc (sym here ∙ at) in
          subst (λ n. IsFuture view env ctx parts w0 n i future next.1)
            (counted_self turns j i same)
            (subst (λ k. IsFuture view env ctx parts w0 (suc (turns k)) k future next.1) same
              (subst (λ u. IsFuture view env ctx parts w0 (suc (turns j)) j u next.1) is
                (own_turn view env ctx parts separate distinct w0 (turns j) j other s.world
                  (inv j other there))))
      | no differ ↦
          subst (λ n. IsFuture view env ctx parts w0 n i future (step env ctx other s.world).1)
            (counted_other turns j i differ)
            (other_turn view env ctx parts separate distinct w0 (turns j) (turns i) i j future other
              s.world differ (inv j other there)
              (inv i future (sym (get_elem?-set_ne s.futures j i _ differ) ∙ at)))
    ]

    turn-IsInv :
        (turns : ℕ → ℕ) (j : ℕ) (s : Join X W)
        → IsInv w0 turns s
        → (i : ℕ) (future : Future X W) → get_elem? (turn env ctx j s).futures i ≡ some future
        → IsFuture view env ctx parts w0 (counted turns j i) i future (turn env ctx j s).world
    unfolding turn
    turn-IsInv turns j s inv i future at = elim (Option-cases (get_elem? s.futures j)) [
      | inl missing ↦
          let stay : turn env ctx j s ≡ s = ground (arith, missing) in
          let at' : get_elem? s.futures i ≡ some future =
            subst (λ (q : Join X W). get_elem? q.futures i ≡ some future) stay at in
          subst
            (λ (q : Join X W). IsFuture view env ctx parts w0 (counted turns j i) i future q.world)
            (sym stay)
            (subst (λ n. IsFuture view env ctx parts w0 n i future s.world)
              (counted_other turns j i
                (λ same. cc (sym missing ∙ ap (get_elem? s.futures) same ∙ at')))
              (inv i future at'))
      | inr (other, there) ↦
          let next = step env ctx other s.world in
          let moved : turn env ctx j s
              ≡ record { futures = set s.futures j next.0; world = next.1 } =
            ground (arith, there) in
          let at' : get_elem? (set s.futures j next.0) i ≡ some future =
            subst (λ (q : Join X W). get_elem? q.futures i ≡ some future) moved at in
          subst
            (λ (q : Join X W). IsFuture view env ctx parts w0 (counted turns j i) i future q.world)
            (sym moved) (after_turn turns j i s inv other there future at')
    ]

    run-IsInv :
        (schedule : List ℕ) (turns : ℕ → ℕ) (s : Join X W)
        → IsInv w0 turns s
        → IsInv w0 (λ i. turns i + turns_of i schedule) (run env ctx schedule s)
    unfolding run
    run-IsInv [] turns s inv i future at =
        subst (λ n. IsFuture view env ctx parts w0 n i future s.world) (omega arith)
          (inv i future at)
    run-IsInv (j ∷ schedule) turns s inv i future at =
        subst
          (λ n.
            IsFuture view env ctx parts w0 n i future
              (run env ctx schedule (turn env ctx j s)).world)
          (ground arith)
          (run-IsInv schedule (counted turns j) (turn env ctx j s) (turn-IsInv turns j s inv) i
            future at)

    start-IsInv : WriteAtHome view env ctx parts → IsInv w0 (λ i. 0) (start parts w0)
    unfolding alone
    start-IsInv home i future at =
        let (p, of_part, same) = started parts w0 i future at in
        record {
          part = p;
          of_part = of_part;
          at_home =
              subst (IsAt view env ctx p.0.endpoint) same
                (refl, λ handle has. home i p handle of_part has);
          alone_there = record { same_future = same; same_view = refl };
        }

    turn_place : (j : ℕ) (s : Join X W) → length (turn env ctx j s).futures ≡ length s.futures
    unfolding turn
    turn_place j s = elim (Option-cases (get_elem? s.futures j)) [
      | inl missing ↦ ground (arith, missing)
      | inr (other, there) ↦
          ground (arith, there, length-set s.futures j (step env ctx other s.world).0)
    ]

    run_place :
        (schedule : List ℕ) (s : Join X W)
        → length (run env ctx schedule s).futures ≡ length s.futures
    unfolding run turn
    run_place [] s = refl
    run_place (j ∷ schedule) s = run_place schedule (turn env ctx j s) ∙ turn_place j s

    length-start : (ps : List (Part X W)) → length (start ps w0).futures ≡ length ps
    length-start [] = refl
    length-start (p ∷ ps) = ap suc (length-start ps)

    -- The futures of a split write, polled in any order: if no two parts have one address, a
    -- connection or a write at one address sees and changes nothing at another, and the clients that
    -- are connected already write at their addresses, then a future that has had two turns or more
    -- is ready, with the result and the client of a call of `write_internal` on its part in the world
    -- before the write, as if there were no other part, unless this call panics.
    pub joined_alone :
        (schedule : List ℕ) (i : ℕ) (p : Part X W) (r : Result X Response)
        (client : InnerClient X W) (w' : W)
        → WriteAtHome view env ctx parts
        → get_elem? parts i ≡ some p
        → write_internal env p.0 ctx p.1 w0 ≡ some (r, client, w')
        → 2 ≤ turns_of i schedule
        → get_elem? (run env ctx schedule (start parts w0)).futures i ≡ some (ready r client)
    joined_alone schedule i p r client w' home of_part ends two =
        let joined = run env ctx schedule (start parts w0) in
        elim (Option-cases (get_elem? joined.futures i)) [
          | inl missing ↦ absurd (
              omega (
                arith,
                get_elem?-none joined.futures i missing,
                get_elem?-lt parts i of_part,
                run_place schedule (start parts w0),
                length-start parts,
              ))
          | inr (future, here) ↦
              let f =
                run-IsInv schedule (λ k. 0) (start parts w0) (start-IsInv home) i future here in
              let same : f.part ≡ p = cc (sym f.of_part ∙ of_part) in
              let ran =
                alone-write_internal env ctx r client w' (turns_of i schedule - 2) p.0 p.1 w0
                  ends in
              let count : suc (suc (turns_of i schedule - 2)) ≡ 0 + turns_of i schedule =
                omega arith in
              let at_end : (alone env ctx (0 + turns_of i schedule) (sending f.part.0 f.part.1)
                    w0).0
                  ≡ ready r client =
                subst (λ n. (alone env ctx n (sending f.part.0 f.part.1) w0).0 ≡ ready r client)
                  count
                  (ap
                      (λ (q : Part X W).
                        (alone env ctx (suc (suc (turns_of i schedule - 2))) (sending q.0 q.1)
                          w0).0)
                      same
                    ∙ ap (λ (p : Future X W × W). p.0) ran) in
              here ∙ ap some (sym f.alone_there.same_future ∙ at_end)
        ]
