-- ===== src/Write/Request.antt =====
-- `Request` of src/model/write/request.rs: the points of a write, grouped by table.
pub mod Groups
use incubator_horaedb_client.Prelude.{List, [], ◌∷◌, ◌++◌, Text, text_eq}
use incubator_horaedb_client.Prelude.HashMap
use incubator_horaedb_client.Prelude.HashMap.{HashMap}
use incubator_horaedb_client.Write.Point.{Point}

pub record Request : Type 0 where
  pub point_groups : HashMap Text (List Point)

abbrev pub empty_request : Request
empty_request = record { point_groups = [] }

-- `add_point`.
unfoldable pub add_point : Request → Point → Request
add_point req point = record {
  point_groups = HashMap.update point.table [] (λ points. points ++ point ∷ []) req.point_groups;
}

-- `add_points`.
unfoldable pub add_points : Request → List Point → Request
add_points req [] = req
add_points req (p ∷ ps) = add_points (add_point req p) ps
