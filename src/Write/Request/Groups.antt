-- ===== src/Write/Request/Groups.antt =====
-- The groups of a request hold the added points of their tables, in the order of their addition.
use incubator_horaedb_client.Prelude.{
  ◌≡◌, refl, ap, Option, none, some, List, [], ◌∷◌, ◌++◌, Text, text_eq, text_beq, text_beq_iff,
  select, arith, Bool,
}
use mathlib.Core.List.{append_assoc}
use incubator_horaedb_client.Prelude.HashMap
use incubator_horaedb_client.Prelude.HashMap.{HashMap}
use incubator_horaedb_client.Write.Point.{Point}
use incubator_horaedb_client.Write.Request.{Request, add_point, add_points}

abbrev pub has_table : Text → Point → Bool
has_table t p = text_beq p.table t

-- A group to which points are added; no group is made for no points.
abbrev pub extend : Option (List Point) → List Point → Option (List Point)
extend o [] = o
extend none (p ∷ ps) = some (p ∷ ps)
extend (some qs) (p ∷ ps) = some (qs ++ p ∷ ps)

extend-extend :
    (o : Option (List Point)) (p : Point) (ps : List Point)
    → extend (extend o (p ∷ [])) ps ≡ extend o (p ∷ ps)
extend-extend none p [] = refl
extend-extend none p (q ∷ ps) = refl
extend-extend (some qs) p [] = refl
extend-extend (some qs) p (q ∷ ps) = ap some (append_assoc qs (p ∷ []) (q ∷ ps))

get-add_point :
    (req : Request) (t : Text) (p : Point)
    → HashMap.get t (add_point req p).point_groups
      ≡ extend (HashMap.get t req.point_groups) (select (has_table t) (p ∷ []))
unfolding add_point
get-add_point req t p = ground (
  arith,
  HashMap.get-update p.table t [] (λ points. points ++ p ∷ []) req.point_groups,
  text_beq_iff p.table t,
)

-- After points are added to a request, the group of each table is what it was before, followed by
-- the added points with that table in their order; a table without points has no group.
pub get-add_points :
    (req : Request) (t : Text) (ps : List Point)
    → HashMap.get t (add_points req ps).point_groups
      ≡ extend (HashMap.get t req.point_groups) (select (has_table t) ps)
unfolding add_points
get-add_points req t [] = refl
get-add_points req t (p ∷ ps) = ground (
  arith,
  get-add_points (add_point req p) t ps,
  get-add_point req t p,
  extend-extend (HashMap.get t req.point_groups) p (select (has_table t) ps),
)
