-- ===== src/DbClient/RouteBased/Partition/Kept.antt =====
-- The partition of a write in src/db_client/route_based.rs makes well-formed requests of one.
use incubator_horaedb_client.Prelude.{
  ◌≡◌, sym, subst, Option, none, some, List, [], ◌∷◌, ◌++◌, Text, text_eq, text_beq, text_beq_iff,
  arith, All, Option-cases, Bool-cases, inl, inr,
}
use incubator_horaedb_client.Prelude.HashMap
use incubator_horaedb_client.Prelude.HashMap.{HashMap}
use incubator_horaedb_client.Model.Route.{Endpoint, endpoint_eq, endpoint_beq}
use incubator_horaedb_client.Write.Point.{Point}
use incubator_horaedb_client.Write.Request.{Request, empty_request}
use incubator_horaedb_client.Write.PbBuilder.Decode.Total.{IsWellFormed}
use incubator_horaedb_client.DbClient.RouteBased.Partition.{Parts, with_group, place, partition}

-- All requests of the parts are well formed.
abbrev pub AreWellFormed : HashMap Endpoint Request → Type 0
AreWellFormed = All (λ (part : Endpoint × Request). All IsWellFormed part.1.point_groups)

get-IsWellFormed :
    (groups : HashMap Text (List Point)) (t : Text) {ps : List Point}
    → All IsWellFormed groups
    → HashMap.get t groups ≡ some ps
    → IsWellFormed (t, ps)
unfolding HashMap.get
get-IsWellFormed [] t h e = cc
get-IsWellFormed ((k, v) ∷ groups) t {ps} (here, h) e = elim (Bool-cases (text_beq k t)) [
  | inl same ↦
      let key : k ≡ t = (text_beq_iff k t).0 same in
      let group : v ≡ ps = ground (arith, same) in
      subst (λ g. IsWellFormed (t, g)) group (subst (λ q. IsWellFormed (q, v)) key here)
  | inr differ ↦ get-IsWellFormed groups t h (ground (arith, differ))
]

insert-IsWellFormed :
    (table : Text) (ps : List Point) (groups : HashMap Text (List Point))
    → IsWellFormed (table, ps)
    → All IsWellFormed groups
    → All IsWellFormed (HashMap.insert table ps groups)
unfolding HashMap.insert
insert-IsWellFormed table ps [] w h = (w, tt)
insert-IsWellFormed table ps ((k, v) ∷ groups) w (here, h) = elim (Bool-cases (text_beq k table)) [
  | inl same ↦
      let key : table ≡ k = sym ((text_beq_iff k table).0 same) in
      rw (same, HashMap.insert) (subst (λ q. IsWellFormed (q, ps)) key w, h)
  | inr differ ↦ rw (differ, HashMap.insert) (here, insert-IsWellFormed table ps groups w h)
]

update-AreWellFormed :
    (e : Endpoint) (table : Text) (ps : List Point) (parts : HashMap Endpoint Request)
    → IsWellFormed (table, ps)
    → AreWellFormed parts
    → AreWellFormed (HashMap.update e empty_request (with_group table ps) parts)
unfolding HashMap.update
update-AreWellFormed e table ps [] w h = (insert-IsWellFormed table ps [] w tt, tt)
update-AreWellFormed e table ps ((k, req) ∷ parts) w (here, h) =
    elim (Bool-cases (endpoint_beq k e)) [
      | inl same ↦
          rw (same, HashMap.update) (insert-IsWellFormed table ps req.point_groups w here, h)
      | inr differ ↦ rw (differ, HashMap.update) (here, update-AreWellFormed e table ps parts w h)
    ]

pub partition-AreWellFormed :
    (groups : HashMap Text (List Point)) (parts parts' : Parts) (endpoints : List (Option Endpoint))
    (tables : List Text)
    → All IsWellFormed groups
    → AreWellFormed parts.by_endpoint
    → partition groups parts endpoints tables ≡ some parts'
    → AreWellFormed parts'.by_endpoint
unfolding partition place
partition-AreWellFormed groups parts parts' [] tables w h e =
    let same : parts ≡ parts' = ground arith in
    subst (λ (p : Parts). AreWellFormed p.by_endpoint) same h
partition-AreWellFormed groups parts parts' (o ∷ os) [] w h e =
    let same : parts ≡ parts' = ground arith in
    subst (λ (p : Parts). AreWellFormed p.by_endpoint) same h
partition-AreWellFormed groups parts parts' (none ∷ os) (table ∷ tables) w h e =
    partition-AreWellFormed groups (record parts { no_endpoint = parts.no_endpoint ++ table ∷ [] })
      parts' os tables w h e
partition-AreWellFormed groups parts parts' (some e0 ∷ os) (table ∷ tables) w h e =
    elim (Option-cases (HashMap.get table groups)) [
      | inl missing ↦ absurd (ground (arith, missing))
      | inr (ps, own) ↦
          partition-AreWellFormed groups
            (record parts {
              by_endpoint = HashMap.update e0 empty_request (with_group table ps) parts.by_endpoint;
            })
            parts' os tables w
            (update-AreWellFormed e0 table ps parts.by_endpoint
              (get-IsWellFormed groups table w own) h)
            (ground (arith, own))
    ]
