-- ===== src/Router/Shared/Finish.antt =====
-- Calls that run at the same time on the router of src/router.rs end: the turns that each needs.
use native.Mathlib.Decide.{ℕ_discrete}
use incubator_horaedb_client.Prelude.{
  ℕ, zero, suc, ◌+◌, ◌-◌, ◌≤◌, ◌≡◌, ◌≢◌, ◌∙◌, refl, sym, ap, subst, inl, inr, none, some, List, [],
  ◌∷◌, map, Text, text_eq, length, get_elem?, get_elem?-lt, get_elem?-set_self, get_elem?-set_ne,
  set, if◌then◌else◌, ◌==◌, ==_iff, arith, All, Option-cases,
}
use incubator_horaedb_client.Prelude.HashMap.{HashMap, HashOrder}
use incubator_horaedb_client.Errors.{Result, ok, err}
use incubator_horaedb_client.Model.Route.{Endpoint}
use incubator_horaedb_client.RpcClient.{RpcContext, RouteRequest, RouteResponse, RpcClient}
use incubator_horaedb_client.Router.{Cache, Targets}
use incubator_horaedb_client.Router.Shared.{
  Task, entering, scanning, filling, evicting, returned, evicted, panicked, Request, routing,
  eviction, begin, System, start, answered, request_for, step, turn, run,
}
use incubator_horaedb_client.Router.Shared.Named.{HasDatabase}
use incubator_horaedb_client.Router.Shared.Kind.{routes_tables, is_routing, run-routes_tables}
use incubator_horaedb_client.Router.Shared.Sourced.{run-never_panics}

-- How many turns of a schedule are those of the call at position `i`.
abbrev pub turns_of : ℕ → List ℕ → ℕ
turns_of i [] = 0
turns_of i (j ∷ schedule) = let rest = turns_of i schedule in if i == j then suc rest else rest

-- Turns that are enough for a request, if no answer of the server has more than `b` routes.
abbrev pub turns_needed : ℕ → Request → ℕ
turns_needed b (routing ctx tables) = length tables + b + 3
turns_needed b (eviction tables) = length tables + 1

-- Turns that are enough for a call where it stands.
abbrev turns_left : {X : Type 0} → ℕ → Task X → ℕ
turns_left b (entering ctx tables) = length tables + b + 3
turns_left b (scanning ctx database idx tables targets misses) = length tables + b + 2
turns_left b (filling misses routes targets) = length routes + 1
turns_left b (evicting tables) = length tables + 1
turns_left b _ = 0

-- The call has ended: its future is ready, or it has panicked.
abbrev pub IsFinished : {X : Type 0} → Task X → Type 0
IsFinished (returned result) = Unit
IsFinished evicted = Unit
IsFinished panicked = Unit
IsFinished _ = ⊥

finished_lem : {X : Type 0} (b : ℕ) (task : Task X) → turns_left b task ≡ 0 → IsFinished task
finished_lem b (entering ctx tables) h = absurd (omega arith)
finished_lem b (scanning ctx database idx tables targets misses) h = absurd (omega arith)
finished_lem b (filling misses routes targets) h = absurd (omega arith)
finished_lem b (evicting tables) h = absurd (omega arith)
finished_lem b (returned result) h = tt
finished_lem b evicted h = tt
finished_lem b panicked h = tt

begin-turns_left :
    (X : Type 0) (b : ℕ) (q : Request) → turns_left {X = X} b (begin q) ≤ turns_needed b q
begin-turns_left X b (routing ctx tables) = omega arith
begin-turns_left X b (eviction tables) = omega arith

-- The call has ended as its request asks: `route` with its result, `evict` without one.
abbrev pub IsEnd : {X : Type 0} → Request → Task X → Type 0
IsEnd (routing ctx tables) (returned result) = Unit
IsEnd (eviction tables) evicted = Unit
IsEnd _ _ = ⊥

finished-IsEnd :
    {X : Type 0} (q : Request) (task : Task X)
    → IsFinished task
    → routes_tables task ≡ is_routing q
    → task ≢ panicked
    → IsEnd q task
finished-IsEnd (routing ctx tables) (returned result) f same no_panic = tt
finished-IsEnd (eviction tables) (returned result) f same no_panic = cc
finished-IsEnd (routing ctx tables) evicted f same no_panic = cc
finished-IsEnd (eviction tables) evicted f same no_panic = tt
finished-IsEnd q panicked f same no_panic = absurd (no_panic refl)
finished-IsEnd q (entering ctx tables) f same no_panic = absurd f
finished-IsEnd q (scanning ctx database idx tables targets misses) f same no_panic = absurd f
finished-IsEnd q (filling misses routes targets) f same no_panic = absurd f
finished-IsEnd q (evicting tables) f same no_panic = absurd f

get_elem?-begin :
    {X : Type 0} (requests : List Request) (i : ℕ) {q : Request}
    → get_elem? requests i ≡ some q
    → get_elem? (map (begin {X = X}) requests) i ≡ some (begin q)
get_elem?-begin [] i h = cc
get_elem?-begin (r ∷ qs) zero h = ap (elim [ some q ↦ some (begin q) | none ↦ none ]) h
get_elem?-begin (r ∷ qs) (suc i) h = get_elem?-begin qs i h

module _ {X W : Type 0} (order : HashOrder Text ℕ) (d : Endpoint) (rpc : RpcClient X W) where
  -- No answer of the server has more than `b` routes.
  abbrev pub AnswersAreBounded : ℕ → Type 0
  AnswersAreBounded b =
      (ctx : RpcContext) (req : RouteRequest) (w w' : W) (resp : RouteResponse)
      → rpc.route ctx req w ≡ (ok resp, w')
      → length resp.routes ≤ b

  module _ (b : ℕ) (bounded : AnswersAreBounded b) where
    answered-turns_left :
        (misses : HashMap Text ℕ) (targets : Targets) (cache : Cache) (ctx : RpcContext)
        (req : RouteRequest) (w : W) (reply : Result X RouteResponse × W)
        → rpc.route ctx req w ≡ reply
        → turns_left b (answered misses targets cache reply).0 ≤ b + 1
    answered-turns_left misses targets cache ctx req w (err e, w') is = omega arith
    answered-turns_left misses targets cache ctx req w (ok resp, w') is =
        omega (arith, bounded ctx req w w' resp is)

    step-turns_left :
        (task : Task X) (cache : Cache) (w : W)
        → turns_left b (step order d rpc task cache w).0 ≤ turns_left b task - 1
    unfolding step
    step-turns_left (entering ctx tables) cache w = ground arith
    step-turns_left (scanning ctx db idx [] targets misses) cache w = omega (
      arith,
      answered-turns_left misses targets cache ctx (request_for order db misses) w
          (rpc.route ctx (request_for order db misses) w) refl,
    )
    step-turns_left (scanning ctx db idx (t ∷ ts) targets misses) cache w = ground arith
    step-turns_left (filling misses [] targets) cache w = omega arith
    step-turns_left (filling misses (r ∷ rs) targets) cache w = ground arith
    step-turns_left (evicting []) cache w = omega arith
    step-turns_left (evicting (t ∷ ts)) cache w = omega arith
    step-turns_left (returned result) cache w = omega arith
    step-turns_left evicted cache w = omega arith
    step-turns_left panicked cache w = omega arith

    -- The call at position `i` is there, and `n` turns are enough for it.
    record IsWithin (n i : ℕ) (s : System X W) : Type 0 where
      task : Task X
      here : get_elem? s.tasks i ≡ some task
      enough : turns_left b task ≤ n

    turn-IsWithin :
        (n i j : ℕ) (s : System X W)
        → IsWithin n i s
        → IsWithin (if i == j then n - 1 else n) i (turn order d rpc j s)
    unfolding turn
    turn-IsWithin n i j s h = elim (Option-cases (get_elem? s.tasks j)) [
      | inl missing ↦ record {
        task = h.task;
        here = rw (missing, turn) h.here;
        enough = ground (arith, h.here, h.enough, ==_iff i j, missing);
      }
      | inr (other, there) ↦ elim (ℕ_discrete j i) [
        | yes same ↦
            let same_task : other ≡ h.task =
              cc (sym there ∙ ap (get_elem? s.tasks) same ∙ h.here) in
            record {
              task = (step order d rpc h.task s.cache s.world).0;
              here =
                  rw (there, turn)
                    (subst
                      (λ u.
                        get_elem? (set s.tasks j (step order d rpc other s.cache s.world).0) i
                        ≡ some (step order d rpc u s.cache s.world).0)
                      same_task
                      (subst
                        (λ k.
                          get_elem? (set s.tasks j (step order d rpc other s.cache s.world).0) k
                          ≡ some (step order d rpc other s.cache s.world).0)
                        same
                        (get_elem?-set_self s.tasks j (step order d rpc other s.cache s.world).0
                          (get_elem?-lt s.tasks j there))));
              enough = ground (arith, ==_iff i j, step-turns_left h.task s.cache s.world, h.enough);
            }
        | no differ ↦ record {
          task = h.task;
          here = rw (there, turn) (get_elem?-set_ne s.tasks j i _ differ ∙ h.here);
          enough = ground (arith, ==_iff i j, h.enough);
        }
      ]
    ]

    run-IsWithin :
        (schedule : List ℕ) (n i : ℕ) (s : System X W)
        → IsWithin n i s
        → IsWithin (n - turns_of i schedule) i (run order d rpc schedule s)
    unfolding run
    run-IsWithin [] n i s h = record {
      task = h.task;
      here = h.here;
      enough = omega (arith, h.enough);
    }
    run-IsWithin (j ∷ schedule) n i s h =
        let rest =
          run-IsWithin schedule (if i == j then n - 1 else n) i (turn order d rpc j s)
            (turn-IsWithin n i j s h) in
        record { task = rest.task; here = rest.here; enough = ground (arith, rest.enough) }

    -- Calls that run at the same time, in any order of their turns: if no answer of the server has
    -- more than `b` routes and every routing request has a database, then each call has ended,
    -- without a panic, once it has had as many turns as its request needs: for `route` the number of
    -- its tables and `b + 3`, for `evict` the number of its tables and one.
    pub run-ends :
        (requests : List Request) (schedule : List ℕ) (cache : Cache) (w : W) (i : ℕ) (q : Request)
        → All HasDatabase requests
        → get_elem? requests i ≡ some q
        → turns_needed b q ≤ turns_of i schedule
        → (task : Task X) × (get_elem? (run order d rpc schedule (start cache w requests)).tasks i
            ≡ some task)
          × IsEnd q task
    run-ends requests schedule cache w i q h asked enough =
        let within = run-IsWithin schedule (turns_needed b q) i (start cache w requests) (record {
          task = begin q;
          here = get_elem?-begin requests i asked;
          enough = begin-turns_left X b q;
        }) in
        (
          within.task,
          within.here,
          finished-IsEnd q within.task (finished_lem b within.task (omega (arith, within.enough)))
              (run-routes_tables order d rpc requests schedule cache w i q within.task asked
                within.here)
              (λ panic.
                run-never_panics order d rpc requests schedule cache w i h
                  (within.here ∙ ap some panic)),
        )
