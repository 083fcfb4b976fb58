-- ===== src/Router/Shared/Kind.antt =====
-- Turns on the router of src/router.rs change no call of `route` to one of `evict` or back.
use incubator_horaedb_client.Prelude.{
  ℕ, zero, suc, ◌≡◌, ◌∙◌, refl, some, List, [], ◌∷◌, map, Bool, true, false, Text, text_eq,
  get_elem?, arith,
}
use incubator_horaedb_client.Prelude.HashMap.{HashMap, HashOrder}
use incubator_horaedb_client.Errors.{Result, ok, err}
use incubator_horaedb_client.Model.Route.{Endpoint}
use incubator_horaedb_client.RpcClient.{RouteResponse, RpcClient}
use incubator_horaedb_client.Router.{Cache, Targets}
use incubator_horaedb_client.Router.Shared.{
  Task, entering, scanning, filling, evicting, returned, evicted, panicked, Request, routing,
  eviction, begin, start, answered, request_for, step, run,
}
use incubator_horaedb_client.Router.Shared.Invariant.{run-IsInv}

-- Whether a call is one of `route`, and whether a request is for one; only `route` can panic.
abbrev pub routes_tables : {X : Type 0} → Task X → Bool
routes_tables (evicting tables) = false
routes_tables evicted = false
routes_tables _ = true

abbrev pub is_routing : Request → Bool
is_routing (routing ctx tables) = true
is_routing (eviction tables) = false

answered-routes_tables :
    {X W : Type 0} (misses : HashMap Text ℕ) (targets : Targets) (cache : Cache)
    (reply : Result X RouteResponse × W)
    → routes_tables (answered misses targets cache reply).0 ≡ true
answered-routes_tables misses targets cache (err e, w) = refl
answered-routes_tables misses targets cache (ok resp, w) = refl

begin-routes_tables :
    {X : Type 0} (requests : List Request) (i : ℕ) (task : Task X)
    → get_elem? (map begin requests) i ≡ some task
    → (q : Request) → get_elem? requests i ≡ some q
    → routes_tables task ≡ is_routing q
begin-routes_tables [] i task at q asked = cc
begin-routes_tables (routing ctx tables ∷ qs) zero task at q asked = ground arith
begin-routes_tables (eviction tables ∷ qs) zero task at q asked = ground arith
begin-routes_tables (r ∷ qs) (suc i) task at q asked = begin-routes_tables qs i task at q asked

module _ {X W : Type 0} (order : HashOrder Text ℕ) (d : Endpoint) (rpc : RpcClient X W) where
  step-routes_tables :
      (task : Task X) (cache : Cache) (w : W)
      → routes_tables (step order d rpc task cache w).0 ≡ routes_tables task
  unfolding step
  step-routes_tables (entering ctx tables) cache w = ground arith
  step-routes_tables (scanning ctx db idx [] targets misses) cache w =
      answered-routes_tables misses targets cache (rpc.route ctx (request_for order db misses) w)
  step-routes_tables (scanning ctx db idx (t ∷ ts) targets misses) cache w = ground arith
  step-routes_tables (filling misses [] targets) cache w = refl
  step-routes_tables (filling misses (r ∷ rs) targets) cache w = ground arith
  step-routes_tables (evicting []) cache w = refl
  step-routes_tables (evicting (t ∷ ts)) cache w = refl
  step-routes_tables (returned result) cache w = refl
  step-routes_tables evicted cache w = refl
  step-routes_tables panicked cache w = refl

  -- A call of `route` stays one, and so does a call of `evict`.
  pub run-routes_tables :
      (requests : List Request) (schedule : List ℕ) (cache : Cache) (w : W) (i : ℕ) (q : Request)
      (task : Task X)
      → get_elem? requests i ≡ some q
      → get_elem? (run order d rpc schedule (start cache w requests)).tasks i ≡ some task
      → routes_tables task ≡ is_routing q
  run-routes_tables requests schedule cache w i q task asked at =
      (run-IsInv order d rpc (λ c. Unit)
          (λ k u. (q' : Request) → get_elem? requests k ≡ some q' → routes_tables u ≡ is_routing q')
          (λ k u c v p h. (tt, λ q' asked'. step-routes_tables u c v ∙ h q' asked')) schedule
          (start cache w requests)
          (record { shared = tt; each = begin-routes_tables requests })).each
        i task at q asked
