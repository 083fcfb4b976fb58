-- ===== src/DbClient/RouteBased/Clients.antt =====
-- `DirectClientPool` of src/db_client/route_based.rs. The `Arc` that the pool hands out is the entry
-- of its endpoint, so a call through it is a change of that entry.
use incubator_horaedb_client.Prelude.{none, some}
use incubator_horaedb_client.Prelude.HashMap
use incubator_horaedb_client.Prelude.HashMap.{HashMap}
use incubator_horaedb_client.Model.Route.{Endpoint, endpoint_eq, to_string}
use incubator_horaedb_client.DbClient.Inner
use incubator_horaedb_client.DbClient.Inner.{InnerClient}

abbrev pub Pool : Type 0 → Type 0 → Type 0
Pool X W = HashMap Endpoint (InnerClient X W)

module _ {X W : Type 0} where
  -- The client of the endpoint, and the pool, where a missing client is built and inserted.
  unfoldable pub get_or_create : Pool X W → Endpoint → InnerClient X W × Pool X W
  unfolding to_string Inner.new
  get_or_create pool e = elim (HashMap.get e pool) [
    | some c ↦ (c, pool)
    | none ↦ (Inner.new (to_string e), HashMap.insert e (Inner.new (to_string e)) pool)
  ]

  -- A call has changed the client behind the `Arc`.
  unfoldable pub store : Pool X W → Endpoint → InnerClient X W → Pool X W
  store pool e c = HashMap.insert e c pool
