-- ===== src/Write/PbBuilder/Decode/Total.antt =====
-- Building the protobuf form of a well-formed request in src/model/write/request.rs never panics.
use incubator_horaedb_client.Prelude.{
  ℕ, ◌<◌, ◌^◌, ◌≡◌, ◌≢◌, ◌∙◌, sym, true, none, some, List, [], ◌∷◌, Text, text_eq, text_beq, all,
  arith, All, Option-cases, inl, inr,
}
use mathlib.Core.Logic.{∥∥₁_elim}
use mathlib.Core.HLevel.{⊥_prop}
use mathlib.Core.List.{Permᴰ}
use mathlib.Core.List.Permᴰ
use incubator_horaedb_client.Prelude.Rearrange.{All-Permᴰ}
use incubator_horaedb_client.Prelude.HashMap.{HashOrder}
use incubator_horaedb_client.Write.Point.{Point}
use incubator_horaedb_client.Write.Request.{Request}
use incubator_horaedb_client.Write.PbBuilder.{
  DictOrders, build, Orders, build_groups, build_request, ◌>>=◌,
}
use incubator_horaedb_client.Write.PbBuilder.Series
use incubator_horaedb_client.Write.PbBuilder.Series.{
  SeriesEntry, SeriesMap, group_series, TableRequestPbBuilder, values,
}
use incubator_horaedb_client.Write.PbBuilder.Series.Partition.{new-none_iff}
use incubator_horaedb_client.Write.PbBuilder.Decode.RoundTrip.{SeriesInRange, decode-build}
use incubator_horaedb_client.Write.PbBuilder.Decode.Sizes.{
  PointInRange, tags_total, fields_total, group_series-IsBounded, tags-Permᴰ, fields-Permᴰ,
  values_in_range,
}

-- The points of the group are of its table and in range, and have fewer than 2 ^ 32 tags and fewer
-- than 2 ^ 32 fields together.
abbrev pub IsWellFormed : Text × List Point → Type 0
IsWellFormed (table, points) =
    (all (λ p. text_beq p.table table) points ≡ true)
    × All PointInRange points
    × (tags_total points < 2 ^ 32)
    × (fields_total points < 2 ^ 32)

arranged :
    (dicts : DictOrders) (table : Text) (points : List Point) (m xs : SeriesMap)
    → IsWellFormed (table, points)
    → group_series table [] points ≡ some m
    → Permᴰ m xs
    → build dicts (record { table = table; series_entires = values xs }) ≢ none
arranged dicts table points m xs (own, range, tags, fields) grouped perm =
    let b = group_series-IsBounded table [] points m grouped in
    let (pb, built, named, decoded) =
      decode-build dicts (record { table = table; series_entires = values xs })
        (omega (arith, b.tags, tags-Permᴰ perm)) (omega (arith, b.fields, fields-Permᴰ perm))
        (values_in_range xs (
          All-Permᴰ (λ (kv : List ℕ × SeriesEntry). SeriesInRange kv.1) perm
            (b.in_range range tt))) in
    λ h. cc (sym built ∙ h)

group-total :
    (series : HashOrder (List ℕ) SeriesEntry) (dicts : DictOrders) (table : Text)
    (points : List Point)
    → IsWellFormed (table, points)
    → (Series.new series table points >>= build dicts) ≢ none
unfolding Series.new
group-total series dicts table points w = elim (Option-cases (group_series table [] points)) [
  | inl missing ↦ λ h.
      let broken = (new-none_iff series table points).0 (ground (arith, missing)) in
      cc (sym w.0 ∙ broken)
  | inr (m, grouped) ↦ λ h. ∥∥₁_elim (series.arrange-perm m) ⊥_prop (λ perm.
      arranged dicts table points m (series.arrange m) w grouped (Permᴰ.symm perm)
        (ground (arith, grouped)))
]

groups-total :
    (orders : Orders) (groups : List (Text × List Point))
    → All IsWellFormed groups
    → build_groups orders groups ≢ none
unfolding build_groups
groups-total orders [] w = λ h. cc
groups-total orders ((table, points) ∷ groups) (here, w) = ground (
  arith,
  group-total (orders.series table) (orders.dicts table) table points here,
  groups-total orders groups w,
)

-- If the points of every group of a request are of the group's table and hold values in the ranges
-- of their types, and those of each group have fewer than 2 ^ 32 tags and fewer than 2 ^ 32 fields
-- together, then building the protobuf form of the request does not panic, whatever the iteration
-- orders of the maps.
pub build_request_total :
    (orders : Orders) (req : Request)
    → All IsWellFormed req.point_groups
    → build_request orders req ≢ none
unfolding build_request
build_request_total orders req w h =
    ∥∥₁_elim (orders.groups.arrange-perm req.point_groups) ⊥_prop (λ perm.
      groups-total orders (orders.groups.arrange req.point_groups)
        (All-Permᴰ IsWellFormed (Permᴰ.symm perm) w) h)
