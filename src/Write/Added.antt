-- ===== src/Write/Added.antt =====
-- The request that `add_points` of src/model/write/request.rs makes can be encoded.
use incubator_horaedb_client.Prelude.{
  ℕ, ◌+◌, ◌≤◌, ◌<◌, ◌^◌, ◌≡◌, refl, Bool, true, List, [], ◌∷◌, ◌++◌, Text, text_eq, text_beq,
  text_beq_iff, all, ◌&&◌, arith, All, All-append, All-map, Bool-cases, inl, inr,
}
use incubator_horaedb_client.Prelude.HashMap
use incubator_horaedb_client.Prelude.HashMap.{HashMap}
use incubator_horaedb_client.Write.Point.{Point}
use incubator_horaedb_client.Write.Request.{Request, empty_request, add_point, add_points}
use incubator_horaedb_client.Write.PbBuilder.Decode.Sizes.{PointInRange, tags_total, fields_total}
use incubator_horaedb_client.Write.PbBuilder.Decode.Total.{IsWellFormed}

-- The points of a group are of its table and in range, and have at most so many tags and fields.
abbrev IsWithin : ℕ → ℕ → Text × List Point → Type 0
IsWithin tags fields (table, points) =
    (all (λ p. text_beq p.table table) points ≡ true)
    × All PointInRange points
    × (tags_total points ≤ tags)
    × (fields_total points ≤ fields)

tags_total-append : (ps qs : List Point) → tags_total (ps ++ qs) ≡ tags_total ps + tags_total qs
tags_total-append [] qs = omega arith
tags_total-append (p ∷ ps) qs = omega (arith, tags_total-append ps qs)

fields_total-append :
    (ps qs : List Point) → fields_total (ps ++ qs) ≡ fields_total ps + fields_total qs
fields_total-append [] qs = omega arith
fields_total-append (p ∷ ps) qs = omega (arith, fields_total-append ps qs)

all-append :
    {A : Type 0} (f : A → Bool) (xs ys : List A) → all f (xs ++ ys) ≡ (all f xs && all f ys)
all-append f [] ys = refl
all-append f (x ∷ xs) ys = ground (arith, all-append f xs ys)

module _ (p : Point) (range : PointInRange p) (tags fields : ℕ) where
  abbrev More : Text × List Point → Type 0
  More = IsWithin (tags + tags_total (p ∷ [])) (fields + fields_total (p ∷ []))

  grow : (group : Text × List Point) → IsWithin tags fields group → More group
  grow (table, points) (owns, ranges, t, f) = (owns, ranges, omega arith, omega arith)

  joined :
      (table : Text) (points : List Point)
      → text_beq p.table table ≡ true
      → IsWithin tags fields (table, points)
      → More (table, points ++ p ∷ [])
  joined table points own (owns, ranges, t, f) = (
    ground (arith, all-append (λ q. text_beq q.table table) points (p ∷ [])),
    All-append PointInRange points (p ∷ []) ranges (range, tt),
    omega (arith, tags_total-append points (p ∷ [])),
    omega (arith, fields_total-append points (p ∷ [])),
  )

  update-IsWithin :
      (groups : HashMap Text (List Point))
      → All (IsWithin tags fields) groups
      → All More (HashMap.update p.table [] (λ points. points ++ p ∷ []) groups)
  unfolding HashMap.update
  update-IsWithin [] h = (
    joined p.table [] (ground (arith, text_beq_iff p.table p.table))
        (refl, tt, omega arith, omega arith),
    tt,
  )
  update-IsWithin ((table, points) ∷ groups) (here, h) =
      elim (Bool-cases (text_beq table p.table)) [
        | inl same ↦
            rw (same, HashMap.update)
              (
                joined table points
                    (ground (arith, text_beq_iff table p.table, text_beq_iff p.table table)) here,
                All-map (IsWithin tags fields) More groups grow h,
              )
        | inr differ ↦
            rw (differ, HashMap.update) (grow (table, points) here, update-IsWithin groups h)
      ]

add_points-IsWithin :
    (req : Request) (ps : List Point) (tags fields : ℕ)
    → All PointInRange ps
    → All (IsWithin tags fields) req.point_groups
    → All
        (IsWithin (tags + tags_total ps) (fields + fields_total ps))
        (add_points req ps).point_groups
unfolding add_points add_point
add_points-IsWithin req [] tags fields h k =
    All-map (IsWithin tags fields) (IsWithin (tags + 0) (fields + 0)) req.point_groups
      (λ (table, points) (owns, ranges, t, f). (owns, ranges, omega arith, omega arith)) k
add_points-IsWithin req (p ∷ ps) tags fields (here, h) k =
    All-map
      (IsWithin (tags + tags_total (p ∷ []) + tags_total ps)
        (fields + fields_total (p ∷ []) + fields_total ps))
      (IsWithin (tags + tags_total (p ∷ ps)) (fields + fields_total (p ∷ ps)))
      (add_points (add_point req p) ps).point_groups
      (λ (table, points) (owns, ranges, t, f). (owns, ranges, omega arith, omega arith))
      (add_points-IsWithin (add_point req p) ps (tags + tags_total (p ∷ []))
        (fields + fields_total (p ∷ [])) h (update-IsWithin p here tags fields req.point_groups k))

-- The points of a request that can be encoded: their values are in the ranges of their types, and
-- they have fewer than 2 ^ 32 tags and fewer than 2 ^ 32 fields together.
abbrev pub AreEncodable : List Point → Type 0
AreEncodable ps = All PointInRange ps × (tags_total ps < 2 ^ 32) × (fields_total ps < 2 ^ 32)

pub add_points-IsWellFormed :
    (ps : List Point)
    → AreEncodable ps
    → All IsWellFormed (add_points empty_request ps).point_groups
add_points-IsWellFormed ps (ranges, tags, fields) =
    All-map (IsWithin (0 + tags_total ps) (0 + fields_total ps)) IsWellFormed
      (add_points empty_request ps).point_groups
      (λ (table, points) (owns, range, t, f). (owns, range, omega arith, omega arith))
      (add_points-IsWithin empty_request ps 0 0 ranges tt)
