-- ===== src/Router/Routes.antt =====
-- No target of a successful call of `route` in src/router.rs is empty.
use incubator_horaedb_client.Prelude.{
  ℕ, ◌≡◌, ◌≢◌, ap, Option, none, some, List, [], ◌∷◌, Text, text_eq, length, get_elem?,
  get_elem?-lt, get_elem?-none, arith, Option-cases, inl, inr,
}
use incubator_horaedb_client.Prelude.HashMap.{HashOrder}
use incubator_horaedb_client.Errors.{ok}
use incubator_horaedb_client.Model.Route.{Endpoint, from_pb}
use incubator_horaedb_client.RpcClient.{RpcContext, Route}
use incubator_horaedb_client.Router.{Cache, Targets, RouterImpl, route}
use incubator_horaedb_client.Router.Fill.{answer}
use incubator_horaedb_client.Router.Found.{resolved}
use incubator_horaedb_client.Router.Sound.{route-Succeeded}

answer-some : (e : Endpoint) (t : Text) (routes : List Route) → answer (some e) t routes ≢ none
answer-some e t [] = λ h. cc
answer-some e t (q ∷ routes) = elim (Option-cases q.endpoint) [
  | inl absent ↦ λ h. answer-some e t routes (ground (arith, absent))
  | inr (pb, present) ↦
      λ h. ground (arith, present, answer-some e t routes, answer-some (from_pb pb) t routes)
]

resolved_some :
    (cache : Cache) (default : Endpoint) (tables : List Text) (routes : List Route) (j : ℕ)
    (t : Text)
    → resolved cache default tables routes j t ≢ none
resolved_some cache default tables routes j t h = ground (arith, answer-some default t routes)

-- A successful call gives every table an endpoint: no target is empty, whatever the server answers.
pub route_all_some :
    {X W : Type 0} (order : HashOrder Text ℕ) (r r' : RouterImpl X W) (tables : List Text)
    (ctx : RpcContext) (w w' : W) (ts : Targets) (j : ℕ) (o : Option Endpoint)
    → route order r tables ctx w ≡ some (ok ts, r', w')
    → get_elem? ts j ≡ some o
    → o ≢ none
route_all_some order r r' tables ctx w w' ts j o h at =
    let s = route-Succeeded order r tables ctx w ts r' w' h in
    elim (Option-cases (get_elem? tables j)) [
      | inl beyond ↦ absurd (
          omega (
            arith,
            get_elem?-none tables j beyond,
            get_elem?-lt ts j at,
            s.routed.sized,
            ap length s.same_targets,
          ))
      | inr (t, here) ↦ λ empty.
          resolved_some r.cache r.default_endpoint tables s.response.routes j t
            (ground (arith, s.routed.answered j t here, s.same_targets))
    ]
