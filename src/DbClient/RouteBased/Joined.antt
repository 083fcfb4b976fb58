-- ===== src/DbClient/RouteBased/Joined.antt =====
-- The futures of a split write in src/db_client/route_based.rs, each a call of `write_internal` of
-- src/db_client/inner.rs on the client of its part, when `join_all` polls them in any order. A turn of
-- a future ends where it awaits: after the connection and after the call of the server.
pub mod Local
pub mod Alone
pub mod Parts
pub mod Order
pub mod Repeated
pub mod Sequence
use incubator_horaedb_client.Prelude.{
  ℕ, Option, none, some, List, [], ◌∷◌, map, Text, get_elem?, set,
}
use incubator_horaedb_client.Errors.{Response, Result, ok, err}
use incubator_horaedb_client.Write.Request.{Request}
use incubator_horaedb_client.Write.PbBuilder.{build_request, WriteTableRequestPb}
use incubator_horaedb_client.RpcClient.{RpcContext, RpcClient, WriteResponsePb}
use incubator_horaedb_client.DbClient.Inner.{Env, InnerClient, get_or_try_init, from_pb}

-- Where a future stands, with what is live there.
pub data Future (X W : Type 0) : Type 0 where
  -- Before the assertion and the connection.
  sending : (client : InnerClient X W) (req : Request) → Future X W
  -- Before the request is made and sent.
  connected :
      (database : Text) (handle : RpcClient X W) (client : InnerClient X W) (req : Request)
      → Future X W
  ready : Result X Response → InnerClient X W → Future X W
  panicked : Future X W

pub record Join (X W : Type 0) : Type 0 where
  pub futures : List (Future X W)
  pub world : W

-- The futures of the parts of a write, with their clients.
abbrev pub start : {X W : Type 0} → List (InnerClient X W × Request) → W → Join X W
start parts w = record { futures = map (λ (client, req). sending client req) parts; world = w }

module _ {X W : Type 0} (env : Env X W) (ctx : RpcContext) where
  abbrev pub opened :
      Text → Request → Result X (RpcClient X W) × InnerClient X W × W → Future X W × W
  opened database req (err e, client, w) = (ready (err e) client, w)
  opened database req (ok handle, client, w) = (connected database handle client req, w)

  abbrev pub sent :
      Text
      → RpcClient X W
      → InnerClient X W
      → W
      → Option (List WriteTableRequestPb)
      → Future X W × W
  sent database handle client w none = (panicked, w)
  sent database handle client w (some pbs) =
      let (r, w') =
        handle.write ctx
          (record { context = some (record { database = database }); table_requests = pbs }) w in
      (ready (from_pb env r) client, w')

  -- One turn of a future.
  unfoldable pub step : Future X W → W → Future X W × W
  unfolding get_or_try_init
  step (sending client req) w = elim ctx.database [
    | none ↦ (panicked, w)
    | some database ↦ opened database req (get_or_try_init env client w)
  ]
  step (connected database handle client req) w =
      sent database handle client w (build_request env.orders req)
  step (ready r client) w = (ready r client, w)
  step panicked w = (panicked, w)

  -- A turn of the future at position `i`, and the turns of a schedule.
  unfoldable pub turn : ℕ → Join X W → Join X W
  unfolding step
  turn i s = elim (get_elem? s.futures i) [
    | none ↦ s
    | some future ↦
        let (future', w) = step future s.world in
        record { futures = set s.futures i future'; world = w }
  ]

  unfoldable pub run : List ℕ → Join X W → Join X W
  unfolding turn
  run [] s = s
  run (i ∷ schedule) s = run schedule (turn i s)
