-- ===== src/Router/Total.antt =====
-- `route` in src/router.rs never indexes out of bounds, whatever the server answers.
use incubator_horaedb_client.Prelude.{
  ℕ, ◌<◌, ◌≡◌, ◌↔◌, ◌∙◌, refl, inl, inr, Option, none, some, List, [], ◌∷◌, Text, text_eq, length,
  length-set, set, arith, Option-cases,
}
use incubator_horaedb_client.Prelude.HashMap
use incubator_horaedb_client.Prelude.HashMap.{HashMap, HashOrder}
use incubator_horaedb_client.Errors.{Result, ok, err}
use incubator_horaedb_client.Model.Route.{from_pb}
use incubator_horaedb_client.RpcClient.{RpcContext, Route, RouteResponse}
use incubator_horaedb_client.Router.{
  Cache, Targets, RouterImpl, Filled, fill_misses, unknown_table, route_request, after_call, route,
}
use incubator_horaedb_client.Router.Found.{found, found_bounds, length-found}

-- The loop did not panic, and targets that it returned are as many as there were.
pub record IsSound (X : Type 0) (n : ℕ) (outcome : Option (Filled X)) : Type 0 where
  pub result : Filled X
  pub returned : outcome ≡ some result
  pub sized : (ts : Targets) → result.outcome ≡ ok ts → length ts ≡ n

module _ (X : Type 0) (misses : HashMap Text ℕ) where
  pub fill_misses-IsSound :
      (routes : List Route) (cache : Cache) (targets : Targets)
      → ((t : Text) (k : ℕ) → HashMap.get t misses ≡ some k → k < length targets)
      → IsSound X (length targets) (fill_misses {X = X} misses routes cache targets)
  unfolding fill_misses
  fill_misses-IsSound [] cache targets b = record {
    result = record { cache = cache; outcome = ok targets };
    returned = refl;
    sized = λ ts h. ground arith;
  }
  fill_misses-IsSound (r ∷ rs) cache targets b = elim (Option-cases r.endpoint) [
    | inl absent ↦
        let rest = fill_misses-IsSound rs cache targets b in
        record {
          result = rest.result;
          returned = ground (arith, absent, rest.returned);
          sized = rest.sized;
        }
    | inr (pb, present) ↦ elim (Option-cases (HashMap.get r.table misses)) [
      | inl stray ↦ record {
        result = record { cache = cache; outcome = unknown_table r.table };
        returned = ground (arith, present, stray);
        sized = λ ts h. cc;
      }
      | inr (k, missed) ↦
          let rest =
            fill_misses-IsSound rs (HashMap.insert r.table (from_pb pb) cache)
              (set targets k (some (from_pb pb))) (λ t i p. rw length-set (b t i p)) in
          record {
            result = rest.result;
            returned = ground (arith, present, missed, b r.table k missed, rest.returned);
            sized = λ ts h. rest.sized ts h ∙ length-set targets k (some (from_pb pb));
          }
    ]
  ]

module _ {X W : Type 0} (order : HashOrder Text ℕ) (r : RouterImpl X W) (tables : List Text) where
  record Answered (outcome : Option (Result X Targets × RouterImpl X W × W)) : Type 0 where
    result : Result X Targets
    router : RouterImpl X W
    world : W
    returned : outcome ≡ some (result, router, world)
    sized : (ts : Targets) → result ≡ ok ts → length ts ≡ length tables

  after_call-Answered :
      (reply : Result X RouteResponse × W) → Answered (after_call order r tables reply)
  after_call-Answered (err e, w) = record {
    result = err e;
    router = r;
    world = w;
    returned = refl;
    sized = λ ts h. cc;
  }
  after_call-Answered (ok resp, w) =
      let f =
        fill_misses-IsSound X (found r tables).1 resp.routes r.cache (found r tables).0
          (found_bounds r tables) in
      record {
        result = f.result.outcome;
        router = record r { cache = f.result.cache };
        world = w;
        returned = ground (arith, f.returned);
        sized = λ ts h. f.sized ts h ∙ length-found r tables;
      }

  -- Whatever the server answers, a call panics exactly when its context names no database, and a
  -- call that succeeds returns one target for each table.
  pub route_total :
      (ctx : RpcContext) (w : W)
      → ((route order r tables ctx w ≡ none) ↔ (ctx.database ≡ none))
        × ((ts : Targets) (r' : RouterImpl X W) (w' : W)
            → route order r tables ctx w ≡ some (ok ts, r', w')
            → length ts ≡ length tables)
  unfolding route
  route_total ctx w = elim (Option-cases ctx.database) [
    | inl missing ↦ (
      (λ h. missing, λ h. ground (arith, missing)),
      λ ts r' w' h. absurd (ground (arith, missing)),
    )
    | inr (database, has) ↦
        let a =
          after_call-Answered (r.rpc_client.route ctx (route_request order r tables database) w) in
        (
          (λ h. absurd (ground (arith, has, a.returned)), λ h. cc),
          λ ts r' w' h. a.sized ts (ground (arith, has, a.returned)),
        )
  ]
