-- ===== src/DbClient/RouteBased/Partition.antt =====
-- The partition of a write by endpoints in src/db_client/route_based.rs.
pub mod Placed
pub mod Kept
use incubator_horaedb_client.Prelude.{Option, none, some, List, [], ◌∷◌, ◌++◌, Text, text_eq}
use incubator_horaedb_client.Prelude.HashMap
use incubator_horaedb_client.Prelude.HashMap.{HashMap}
use incubator_horaedb_client.Model.Route.{Endpoint, endpoint_eq}
use incubator_horaedb_client.Write.Point.{Point}
use incubator_horaedb_client.Write.Request.{Request, empty_request}

-- The requests by endpoint, and the tables without an endpoint.
pub record Parts : Type 0 where
  pub by_endpoint : HashMap Endpoint Request
  pub no_endpoint : List Text

abbrev pub no_parts : Parts
no_parts = record { by_endpoint = []; no_endpoint = [] }

abbrev pub with_group : Text → List Point → Request → Request
with_group table points req = record { point_groups = HashMap.insert table points req.point_groups }

-- One round of the loop: the table with its endpoint. `none` is the panic on a table without group.
unfoldable pub place : HashMap Text (List Point) → Parts → Option Endpoint → Text → Option Parts
place groups parts none table =
    some (record parts { no_endpoint = parts.no_endpoint ++ table ∷ [] })
place groups parts (some e) table = elim (HashMap.get table groups) [
  | none ↦ none
  | some points ↦ some (record parts {
    by_endpoint = HashMap.update e empty_request (with_group table points) parts.by_endpoint;
  })
]

-- `endpoints.into_iter().zip(should_routes).for_each(…)`.
unfoldable pub partition :
    HashMap Text (List Point) → Parts → List (Option Endpoint) → List Text → Option Parts
unfolding place
partition groups parts [] tables = some parts
partition groups parts (e ∷ es) [] = some parts
partition groups parts (e ∷ es) (table ∷ tables) = elim (place groups parts e table) [
  | none ↦ none
  | some parts' ↦ partition groups parts' es tables
]
