-- ===== src/Tests/Joined.antt =====
-- Tests of the futures of a split write of src/db_client/route_based.rs, with a world that counts the
-- writes at each address.
use incubator_horaedb_client.Prelude.{
  ◌<◌, ◌≤◌, ℕ, zero, suc, ◌≡◌, ◌∙◌, refl, ap, subst, none, some, List, [], ◌∷◌, Text, text, text_eq,
  text_beq, text_beq_iff, if◌then◌else◌, arith,
}
use incubator_horaedb_client.Prelude.HashMap
use incubator_horaedb_client.Prelude.Decimal.{show_u32}
use incubator_horaedb_client.Errors.{ok}
use incubator_horaedb_client.Write.Request
use incubator_horaedb_client.RpcClient.{RpcClient}
use incubator_horaedb_client.DbClient.Inner.{Env, InnerClient, new}
use incubator_horaedb_client.DbClient.RouteBased.Clients.{Pool, get_or_create}
use incubator_horaedb_client.DbClient.RouteBased.Write.{Sent, zip, create_all, send_all}
use incubator_horaedb_client.Model.Route.{Endpoint, endpoint_eq, endpoint_beq, to_string}
use incubator_horaedb_client.DbClient.RouteBased.Joined.{start, run}
use incubator_horaedb_client.DbClient.RouteBased.Joined.Local.{WritesAt, IsSeparate}
use incubator_horaedb_client.DbClient.RouteBased.Joined.Parts.{Part, AreDistinct, WriteAtHome}
use incubator_horaedb_client.DbClient.RouteBased.Joined.Sequence.{
  collected, pooled, collected-send_all,
}
use incubator_horaedb_client.Router.Shared.Finish.{turns_of}
use incubator_horaedb_client.Tests.Totals.{groups_well}
use incubator_horaedb_client.Tests.Servers.{orders, decoders, ctx, groups}

abbrev World : Type 0
World = Text → ℕ

abbrev view : Text → World → ℕ
view address w = w address

abbrev counted : Text → World → World
counted address w a = if text_beq a address then suc (w a) else w a

-- The server at an address, which answers with the number of its writes.
abbrev counter : Text → RpcClient Text World
counter address = record {
  sql_query = λ ctx req w. (ok (record { header = none; output = none }), w);
  write = λ ctx req w.
      (ok (record { header = none; success = w address; failed = 0 }), counted address w);
  route = λ ctx req w. (ok (record { header = none; routes = [] }), w);
}

abbrev env : Env Text World
env = record {
  factory = record { build = λ endpoint w. (ok (counter endpoint), w) };
  decoders = decoders;
  orders = orders;
}

counter-WritesAt : (address : Text) → WritesAt view env ctx address (counter address)
counter-WritesAt address req = record {
  same_result = λ v w same. ap (λ n. ok (record { header = none; success = n; failed = 0 })) same;
  same_view = λ v w same. ap (λ n. if text_beq address address then suc n else n) same;
  elsewhere = λ a w differ. ground (arith, text_beq_iff a address);
}

separate : IsSeparate view env ctx
separate = record {
  connects = λ address. record {
    same_result = λ v w same. refl;
    same_view = λ v w same. same;
    elsewhere = λ a w differ. refl;
  };
  writes = λ address w w' handle made.
      let same : counter address ≡ handle = ground (arith, made) in
      subst (WritesAt view env ctx address) same (counter-WritesAt address);
}

abbrev connected : InnerClient Text World
connected = record { endpoint = text "a:1"; inner_client = some (counter (text "a:1")) }

abbrev request : Request.Request
request = record { point_groups = groups }

abbrev parts : List (Part Text World)
parts = (connected, request) ∷ (record { endpoint = text "b:1"; inner_client = none }, request) ∷ []

distinct : AreDistinct view env ctx parts
unfolding text_beq
distinct zero zero p q hp hq same = refl
distinct zero (suc zero) p q hp hq same = absurd (ground (arith, hp, hq, same))
distinct zero (suc (suc j)) p q hp hq same = cc
distinct (suc zero) zero p q hp hq same = absurd (ground (arith, hp, hq, same))
distinct (suc zero) (suc zero) p q hp hq same = refl
distinct (suc zero) (suc (suc j)) p q hp hq same = cc
distinct (suc (suc i)) j p q hp hq same = cc

home : WriteAtHome view env ctx parts
home zero p handle hp has =
    let is : connected ≡ p.0 = ground (arith, hp) in
    let here : counter (text "a:1") ≡ handle = ground (arith, ap (λ c. c.inner_client) is ∙ has) in
    subst (λ a. WritesAt view env ctx a handle) (ap (λ c. c.endpoint) is)
      (subst (WritesAt view env ctx (text "a:1")) here (counter-WritesAt (text "a:1")))
home (suc zero) p handle hp has = absurd (ground (arith, hp, has))
home (suc (suc i)) p handle hp has = cc

abbrev world : World
world a = 5

abbrev at_a : Endpoint
at_a = record { addr = text "a"; port = 1 }

abbrev at_b : Endpoint
at_b = record { addr = text "b"; port = 1 }

abbrev requests : List (Endpoint × Request.Request)
requests = (at_a, request) ∷ (at_b, request) ∷ []

abbrev pool : Pool Text World
pool = (at_a, connected) ∷ []

pooled_parts : parts ≡ pooled view env ctx pool world requests
unfolding get_or_create HashMap.get endpoint_beq text_beq new to_string show_u32
pooled_parts = refl

abbrev schedule : List ℕ
schedule = 0 ∷ 1 ∷ 1 ∷ 0 ∷ []

two_turns : (i : ℕ) → i < 2 → 2 ≤ turns_of i schedule
two_turns zero h = omega arith
two_turns (suc zero) h = omega arith
two_turns (suc (suc i)) h = absurd (omega (arith, h))

abbrev written : List Text
written = text "cpu" ∷ text "mem" ∷ []

collected-send_all_example :
    (pool' : Pool Text World) × (create_all env 0 ([] ∷ [] ∷ []) pool requests
      ≡ some (written ∷ written ∷ [], pool'))
    × (s : Sent env) × (send_all env ctx pool world requests ≡ some s)
    × (collected
          (written ∷ written ∷ [])
          (run env ctx schedule (start (pooled view env ctx pool world requests) world)).futures
        ≡ some (zip (written ∷ written ∷ []) s.results))
collected-send_all_example =
    collected-send_all view env ctx pool world (text "db") requests schedule separate
      (subst (AreDistinct view env ctx) pooled_parts distinct)
      (subst (WriteAtHome view env ctx) pooled_parts home) refl (groups_well, (groups_well, tt))
      two_turns
