-- ===== src/Router/Mocked.antt =====
-- src/router.rs over the server of src/rpc_client/mock_rpc_client.rs, as a client sees it: what it
-- knows of the tables, without the cache and the messages.
pub mod Keys
pub mod Refines
use incubator_horaedb_client.Prelude.{
  ℕ, Bool, Option, none, some, List, [], ◌∷◌, Text, text_eq, if◌then◌else◌,
}
use mathlib.Core.Option.{get_or}
use incubator_horaedb_client.Prelude.HashMap
use incubator_horaedb_client.Prelude.HashMap.{HashMap, HashOrder}
use incubator_horaedb_client.Errors.{Result, ok, err}
use incubator_horaedb_client.Model.Route.{Endpoint}
use incubator_horaedb_client.RpcClient.{RpcContext}
use incubator_horaedb_client.Router.{Targets, RouterImpl, route, evict}
use incubator_horaedb_client.Router.Evict.{is_in}

-- The route table of the mock client.
abbrev pub World : Type 0
World = HashMap Text Endpoint

-- What happens one after another: the route table changes, tables are routed, or tables are evicted.
pub data Action : Type 0 where
  changed : World → Action
  routed evicted : List Text → Action

-- The targets of the calls of `route`, the router and the route table after all actions; `none` if a
-- call panics or fails.
abbrev pub perform :
    {X : Type 0}
    → HashOrder Text ℕ
    → RpcContext
    → RouterImpl X World
    → World
    → List Action
    → Option (List Targets × RouterImpl X World × World)
perform order ctx r w [] = some ([], r, w)
perform order ctx r w (changed w' ∷ actions) = perform order ctx r w' actions
perform order ctx r w (evicted tables ∷ actions) = perform order ctx (evict r tables) w actions
perform order ctx r w (routed tables ∷ actions) = elim (route order r tables ctx w) [
  | none ↦ none
  | some (err e, r', w') ↦ none
  | some (ok targets, r', w') ↦ elim (perform order ctx r' w' actions) [
    | none ↦ none
    | some (rest, r'', w'') ↦ some (targets ∷ rest, r'', w'')
  ]
]

-- What a client knows: the endpoint of each table that it has met.
abbrev pub Known : Type 0
Known = Text → Option Endpoint

abbrev pub learn : World → List Text → Known → Known
learn w tables known t = elim (known t) [
  | some e ↦ some e
  | none ↦ if is_in t tables then HashMap.get t w else none
]

abbrev pub forget : List Text → Known → Known
forget tables known t = if is_in t tables then none else known t

-- The endpoints of the tables: what is known, else what the route table says, else the default. A
-- table that is not known and occurs again later has the default at its earlier place, as
-- `RouterImpl::route` keeps one index for each table that it misses.
abbrev pub lookups : Endpoint → World → Known → List Text → Targets
lookups d w known [] = []
lookups d w known (t ∷ tables) =
    some (elim (known t) [
      | some e ↦ e
      | none ↦ if is_in t tables then d else get_or (HashMap.get t w) d
    ])
    ∷ lookups d w known tables

-- The targets that the calls of `route` are to give, without a cache.
abbrev pub ideal : Endpoint → World → Known → List Action → List Targets
ideal d w known [] = []
ideal d w known (changed w' ∷ actions) = ideal d w' known actions
ideal d w known (evicted tables ∷ actions) = ideal d w (forget tables known) actions
ideal d w known (routed tables ∷ actions) =
    lookups d w known tables ∷ ideal d w (learn w tables known) actions
