-- ===== src/Router/Shared/Alone.antt =====
-- One call of `route` or `evict` in src/router.rs that takes turns with no other call in between.
use incubator_horaedb_client.Prelude.{
  ℕ, suc, ◌≡◌, ◌∙◌, ap, subst, some, inl, inr, List, [], ◌∷◌, ◌++◌, Text, text_eq, length,
  get_elem?-middle, set, set-append, replicate, ltb, arith, Option-cases, Bool-cases,
}
use incubator_horaedb_client.Prelude.HashMap
use incubator_horaedb_client.Prelude.HashMap.{HashMap, HashOrder}
use incubator_horaedb_client.Model.Route.{Endpoint, from_pb}
use incubator_horaedb_client.RpcClient.{RpcContext, Route, RpcClient}
use incubator_horaedb_client.Router.{Cache, Targets, Filled, find_cached, fill_misses, evict_all}
use incubator_horaedb_client.Router.Shared.{
  Task, scanning, filling, evicting, returned, evicted, step, turn, run,
}

module _ {X W : Type 0} (order : HashOrder Text ℕ) (d : Endpoint) (rpc : RpcClient X W) where
  turn_middle :
      (done rest : List (Task X)) (task : Task X) (cache : Cache) (w : W)
      → turn order d rpc
          (length done)
          (record { tasks = done ++ task ∷ rest; cache = cache; world = w })
        ≡ (let next = step order d rpc task cache w in
            record { tasks = done ++ next.0 ∷ rest; cache = next.1; world = next.2 })
  unfolding turn
  turn_middle done rest task cache w =
      let next = step order d rpc task cache w in
      rw (get_elem?-middle done task rest, turn)
        (ap (λ ts. record { tasks = ts; cache = next.1; world = next.2 })
          (set-append done task rest next.0))

-- The turns of one call lead to `goal`, with no other call in between.
pub data Leads {X W : Type 0} (order : HashOrder Text ℕ) (d : Endpoint) (rpc : RpcClient X W)
    (goal : Task X × Cache × W) : Task X → Cache → W → Type 0 where
  there :
      {task : Task X} {cache : Cache} {w : W}
      → (task, cache, w) ≡ goal
      → Leads order d rpc goal task cache w
  later :
      {task : Task X} {cache : Cache} {w : W}
      → Leads order d rpc goal
          (step order d rpc task cache w).0
          (step order d rpc task cache w).1
          (step order d rpc task cache w).2
      → Leads order d rpc goal task cache w

module _ {X W : Type 0} (order : HashOrder Text ℕ) (d : Endpoint) (rpc : RpcClient X W)
    (goal : Task X × Cache × W) where
  -- The call takes its turns at its position among the others.
  pub run-Leads :
      (done rest : List (Task X)) {task : Task X} {cache : Cache} {w : W}
      → Leads order d rpc goal task cache w
      → (n : ℕ) × (run order d rpc
            (replicate n (length done))
            (record { tasks = done ++ task ∷ rest; cache = cache; world = w })
          ≡ record { tasks = done ++ goal.0 ∷ rest; cache = goal.1; world = goal.2 })
  unfolding run
  run-Leads done rest (there h) =
      (0, ap (λ p. record { tasks = done ++ p.0 ∷ rest; cache = p.1; world = p.2 }) h)
  run-Leads done rest {task} {cache} {w} (later l) =
      let (n, h) = run-Leads done rest l in
      (
        suc n,
        ap (run order d rpc (replicate n (length done)))
              (turn_middle order d rpc done rest task cache w)
            ∙ h,
      )

  pub scanning-Leads :
      (ctx : RpcContext) (db : Text) (idx : ℕ) (tables : List Text) (targets : Targets)
      (misses : HashMap Text ℕ) (cache : Cache) (w : W)
      → ((k : ℕ)
          → Leads order d rpc goal
              (scanning ctx db k []
                (find_cached cache idx tables targets misses).0
                (find_cached cache idx tables targets misses).1)
              cache
              w)
      → Leads order d rpc goal (scanning ctx db idx tables targets misses) cache w
  unfolding step find_cached
  scanning-Leads ctx db idx [] targets misses cache w h = h idx
  scanning-Leads ctx db idx (t ∷ ts) targets misses cache w h =
      elim (Option-cases (HashMap.get t cache)) [
        | inl miss ↦
            let same : find_cached cache idx (t ∷ ts) targets misses
                ≡ find_cached cache (suc idx) ts targets (HashMap.insert t idx misses) =
              ground (arith, miss) in
            later (
              rw (miss, step)
                (scanning-Leads ctx db (suc idx) ts targets (HashMap.insert t idx misses) cache w
                  (λ k.
                    subst (λ f. Leads order d rpc goal (scanning ctx db k [] f.0 f.1) cache w) same
                      (h k))))
        | inr (e, hit) ↦
            let same : find_cached cache idx (t ∷ ts) targets misses
                ≡ find_cached cache (suc idx) ts (set targets idx (some e)) misses =
              ground (arith, hit) in
            later (
              rw (hit, step)
                (scanning-Leads ctx db (suc idx) ts (set targets idx (some e)) misses cache w (λ k.
                  subst (λ f. Leads order d rpc goal (scanning ctx db k [] f.0 f.1) cache w) same
                    (h k))))
      ]

  pub filling-Leads :
      (misses : HashMap Text ℕ) (routes : List Route) (targets : Targets) (cache : Cache) (w : W)
      (filled : Filled X)
      → fill_misses {X = X} misses routes cache targets ≡ some filled
      → (returned filled.outcome, filled.cache, w) ≡ goal
      → Leads order d rpc goal (filling misses routes targets) cache w
  unfolding step fill_misses
  filling-Leads misses [] targets cache w filled h g = later (there (ground arith))
  filling-Leads misses (r ∷ rs) targets cache w filled h g = elim (Option-cases r.endpoint) [
    | inl absent ↦ later (
        rw (absent, step)
          (filling-Leads misses rs targets cache w filled (ground (arith, absent)) g))
    | inr (pb, present) ↦ elim (Option-cases (HashMap.get r.table misses)) [
      | inl stray ↦ later (rw (present, stray, step) (there (ground (arith, present, stray))))
      | inr (k, missed) ↦ elim (Bool-cases (ltb k (length targets))) [
        | inr outside ↦ absurd (ground (arith, present, missed, outside))
        | inl inside ↦ later (
            rw (present, missed, inside, step)
              (filling-Leads misses rs (set targets k (some (from_pb pb)))
                (HashMap.insert r.table (from_pb pb) cache) w filled
                (ground (arith, present, missed, inside)) g))
      ]
    ]
  ]

  pub evicting-Leads :
      (tables : List Text) (cache : Cache) (w : W)
      → (evicted, evict_all cache tables, w) ≡ goal
      → Leads order d rpc goal (evicting tables) cache w
  unfolding step evict_all
  evicting-Leads [] cache w g = later (there g)
  evicting-Leads (t ∷ ts) cache w g = later (evicting-Leads ts (HashMap.remove t cache) w g)
