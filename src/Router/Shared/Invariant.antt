-- ===== src/Router/Shared/Invariant.antt =====
-- What every turn on the router of src/router.rs keeps, every schedule keeps.
use native.Mathlib.Decide.{ℕ_discrete}
use incubator_horaedb_client.Prelude.{
  ℕ, ◌≡◌, ◌∙◌, sym, subst, some, List, [], ◌∷◌, Text, get_elem?, get_elem?-lt, get_elem?-set_self,
  get_elem?-set_ne, set, Option-cases, inl, inr,
}
use incubator_horaedb_client.Prelude.HashMap.{HashOrder}
use incubator_horaedb_client.Model.Route.{Endpoint}
use incubator_horaedb_client.RpcClient.{RpcClient}
use incubator_horaedb_client.Router.{Cache}
use incubator_horaedb_client.Router.Shared.{Task, System, step, turn, run}

-- A property of the cache, and a property of the call at each position.
pub record IsInv {X W : Type 0} (P : Cache → Type 0) (Q : ℕ → Task X → Type 0) (s : System X W)
    : Type 0 where
  pub shared : P s.cache
  pub each : (i : ℕ) (task : Task X) → get_elem? s.tasks i ≡ some task → Q i task

module _ {X W : Type 0} (order : HashOrder Text ℕ) (d : Endpoint) (rpc : RpcClient X W)
    (P : Cache → Type 0) (Q : ℕ → Task X → Type 0) where
  abbrev pub Keeps : Type 0
  Keeps =
      (i : ℕ) (task : Task X) (cache : Cache) (w : W)
      → P cache
      → Q i task
      → P (step order d rpc task cache w).1 × Q i (step order d rpc task cache w).0

  module _ (keeps : Keeps) where
    turn-IsInv : (i : ℕ) (s : System X W) → IsInv P Q s → IsInv P Q (turn order d rpc i s)
    unfolding turn
    turn-IsInv i s inv = elim (Option-cases (get_elem? s.tasks i)) [
      | inl missing ↦ rw (missing, turn) inv
      | inr (task, here) ↦
          let (p, q) = keeps i task s.cache s.world inv.shared (inv.each i task here) in
          rw (here, turn)
            (record {
              shared = p;
              each = λ j t at. elim (ℕ_discrete i j) [
                | yes same ↦
                    let after = (step order d rpc task s.cache s.world).0 in
                    let here' : get_elem? (set s.tasks i after) j ≡ some after =
                      subst (λ k. get_elem? (set s.tasks i after) k ≡ some after) same
                        (get_elem?-set_self s.tasks i after (get_elem?-lt s.tasks i here)) in
                    let moved : after ≡ t = cc (sym here' ∙ at) in
                    subst (λ k. Q k t) same (subst (λ u. Q i u) moved q)
                | no differ ↦ inv.each j t (sym (get_elem?-set_ne s.tasks i j _ differ) ∙ at)
              ];
            })
    ]

    pub run-IsInv :
        (schedule : List ℕ) (s : System X W) → IsInv P Q s → IsInv P Q (run order d rpc schedule s)
    unfolding run
    run-IsInv [] s inv = inv
    run-IsInv (i ∷ schedule) s inv = run-IsInv schedule (turn order d rpc i s) (turn-IsInv i s inv)
