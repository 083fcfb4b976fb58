-- ===== src/DbClient/RouteBased/Partition/Placed.antt =====
-- Where the partition of a write in src/db_client/route_based.rs puts each table.
use incubator_horaedb_client.Prelude.{
  ◌≡◌, ◌∙◌, refl, sym, Bool, false, ◌&&◌, ◌||◌, Option, none, some, List, [], ◌∷◌, ◌++◌, Text,
  text_eq, text_beq, text_beq_iff, if◌then◌else◌, arith, All,
}
use mathlib.Core.Option.{get_or}
use mathlib.Core.List.{append_assoc, append-nil}
use incubator_horaedb_client.Prelude.HashMap
use incubator_horaedb_client.Prelude.HashMap.{HashMap}
use incubator_horaedb_client.Model.Route.{Endpoint, endpoint_eq, endpoint_beq, endpoint_beq_iff}
use incubator_horaedb_client.Write.Point.{Point}
use incubator_horaedb_client.Write.Request.{empty_request}
use incubator_horaedb_client.DbClient.RouteBased.Partition.{Parts, with_group, place, partition}

-- The group of a table in the part of an endpoint.
abbrev pub group_at : Parts → Endpoint → Text → Option (List Point)
group_at parts e t = elim (HashMap.get e parts.by_endpoint) [
  | none ↦ none
  | some req ↦ HashMap.get t req.point_groups
]

abbrev here : Option Endpoint → Text → Endpoint → Text → Bool
here none table e t = false
here (some e0) table e t = endpoint_beq e0 e && text_beq table t

-- Some position has the endpoint and the table.
abbrev pub is_assigned : List (Option Endpoint) → List Text → Endpoint → Text → Bool
is_assigned [] tables e t = false
is_assigned (o ∷ os) [] e t = false
is_assigned (o ∷ os) (table ∷ tables) e t = here o table e t || is_assigned os tables e t

abbrev unrouted_here : Option Endpoint → Text → List Text
unrouted_here none table = table ∷ []
unrouted_here (some e) table = []

-- The tables at the positions without endpoint.
abbrev pub unrouted : List (Option Endpoint) → List Text → List Text
unrouted [] tables = []
unrouted (o ∷ os) [] = []
unrouted (o ∷ os) (table ∷ tables) = unrouted_here o table ++ unrouted os tables

abbrev pub HasGroup : HashMap Text (List Point) → Text → Type 0
HasGroup groups t = (ps : List Point) × (HashMap.get t groups ≡ some ps)

-- What the partition of the rest makes of the parts so far.
pub record IsPlaced (groups : HashMap Text (List Point)) (parts : Parts)
    (endpoints : List (Option Endpoint)) (tables : List Text) (outcome : Option Parts)
    : Type 0 where
  pub parts' : Parts
  pub returned : outcome ≡ some parts'
  pub grouped :
      (e : Endpoint) (t : Text)
      → group_at parts' e t
        ≡ (if is_assigned endpoints tables e t then HashMap.get t groups else group_at parts e t)
  pub left : parts'.no_endpoint ≡ parts.no_endpoint ++ unrouted endpoints tables

no_group : (t : Text) → HashMap.get {V = List Point} t [] ≡ none
unfolding HashMap.get
no_group t = refl

group_at-update :
    (parts : Parts) (e0 : Endpoint) (table : Text) (ps : List Point) (e : Endpoint) (t : Text)
    → group_at
        (record parts {
          by_endpoint = HashMap.update e0 empty_request (with_group table ps) parts.by_endpoint;
        })
        e
        t
      ≡ (if here (some e0) table e t then some ps else group_at parts e t)
group_at-update parts e0 table ps e t = ground (
  arith,
  HashMap.get-update e0 e empty_request (with_group table ps) parts.by_endpoint,
  endpoint_beq_iff e0 e,
  HashMap.get-insert table t ps
      (get_or (HashMap.get e0 parts.by_endpoint) empty_request).point_groups,
  no_group t,
)

-- If every table has a group, the partition does not panic: under each endpoint it puts the groups
-- of exactly the tables at the positions of that endpoint, each whole, beside the parts there were,
-- and it lists the tables without endpoint in order.
pub partition-IsPlaced :
    (groups : HashMap Text (List Point)) (parts : Parts) (endpoints : List (Option Endpoint))
    (tables : List Text)
    → All (HasGroup groups) tables
    → IsPlaced groups parts endpoints tables (partition groups parts endpoints tables)
unfolding partition place
partition-IsPlaced groups parts [] tables h = record {
  parts' = parts;
  returned = refl;
  grouped = λ e t. refl;
  left = sym (append-nil parts.no_endpoint);
}
partition-IsPlaced groups parts (o ∷ os) [] h = record {
  parts' = parts;
  returned = refl;
  grouped = λ e t. refl;
  left = sym (append-nil parts.no_endpoint);
}
partition-IsPlaced groups parts (none ∷ os) (table ∷ tables) (own, h) =
    let rest =
      partition-IsPlaced groups (record parts { no_endpoint = parts.no_endpoint ++ table ∷ [] }) os
        tables h in
    record {
      parts' = rest.parts';
      returned = rest.returned;
      grouped = rest.grouped;
      left = rest.left ∙ append_assoc parts.no_endpoint (table ∷ []) (unrouted os tables);
    }
partition-IsPlaced groups parts (some e0 ∷ os) (table ∷ tables) ((ps, own), h) =
    let rest =
      partition-IsPlaced groups
        (record parts {
          by_endpoint = HashMap.update e0 empty_request (with_group table ps) parts.by_endpoint;
        })
        os tables h in
    record {
      parts' = rest.parts';
      returned = rw (own, partition, place) rest.returned;
      grouped = λ e t. ground (
        arith,
        rest.grouped e t,
        group_at-update parts e0 table ps e t,
        own,
        text_beq_iff table t,
      );
      left = rest.left;
    }
