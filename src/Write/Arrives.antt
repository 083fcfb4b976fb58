-- ===== src/Write/Arrives.antt =====
-- Every point that is added to a request of src/model/write/request.rs is in its protobuf form.
use incubator_horaedb_client.Prelude.{
  ℕ, ◌≡◌, ◌∙◌, refl, sym, ap, subst, true, none, some, List, [], ◌∷◌, Text, text_eq, text_beq,
  text_beq_iff, select, arith, All, Option-cases, Bool-cases, inl, inr,
}
use mathlib.Core.Logic.{∥∥₁_elim, ∥∥₁_map, ∥∥₁_prop}
use mathlib.Core.List.{Memᴰ, Permᴰ}
use mathlib.Core.List.Permᴰ
use incubator_horaedb_client.Prelude.HashMap
use incubator_horaedb_client.Prelude.HashMap.{HashMap, HashOrder}
use incubator_horaedb_client.Prelude.Rearrange.{Any, Any-Permᴰ, All-Permᴰ}
use incubator_horaedb_client.Write.Point.{Point}
use incubator_horaedb_client.Write.Request.{empty_request, add_points}
use incubator_horaedb_client.Write.Request.Groups.{has_table, extend, get-add_points}
use incubator_horaedb_client.Write.PbBuilder.{
  build, Orders, build_groups, build_request, WriteTableRequestPb,
}
use incubator_horaedb_client.Write.PbBuilder.Series
use incubator_horaedb_client.Write.PbBuilder.Series.{
  SeriesEntry, SeriesMap, group_series, TableRequestPbBuilder, values,
}
use incubator_horaedb_client.Write.PbBuilder.Series.Partition.{Holds, IsFaithful, new-Holds}
use incubator_horaedb_client.Write.PbBuilder.Decode.{decode}
use incubator_horaedb_client.Write.PbBuilder.Decode.RoundTrip.{SeriesInRange, decode-build}
use incubator_horaedb_client.Write.PbBuilder.Decode.Sizes.{
  group_series-IsBounded, tags-Permᴰ, fields-Permᴰ, values_in_range,
}
use incubator_horaedb_client.Write.PbBuilder.Decode.Total.{IsWellFormed, build_request_total}
use incubator_horaedb_client.Write.Added.{AreEncodable, add_points-IsWellFormed}

abbrev IsGroup : Text → List Point → Text × List Point → Type 0
IsGroup t points group = group ≡ (t, points)

get-IsGroup :
    (t : Text) (points : List Point) (groups : HashMap Text (List Point))
    → HashMap.get t groups ≡ some points
    → Any (IsGroup t points) groups
unfolding HashMap.get
get-IsGroup t points [] h = cc
get-IsGroup t points ((u, ps) ∷ groups) h = elim (Bool-cases (text_beq u t)) [
  | inl same ↦ inl (ground (arith, same, text_beq_iff u t))
  | inr differ ↦ inr (get-IsGroup t points groups (ground (arith, differ)))
]

-- The request of a table, built from its points.
record IsBuilt (orders : Orders) (t : Text) (points : List Point) (pbs : List WriteTableRequestPb)
    : Type 0 where
  series : TableRequestPbBuilder
  grouped : Series.new (orders.series t) t points ≡ some series
  pb : WriteTableRequestPb
  built : build (orders.dicts t) series ≡ some pb
  among : Memᴰ pb pbs

module _ (orders : Orders) (t : Text) (points : List Point) where
  build_groups-IsBuilt :
      (groups : List (Text × List Point)) (pbs : List WriteTableRequestPb)
      → build_groups orders groups ≡ some pbs
      → Any (IsGroup t points) groups
      → IsBuilt orders t points pbs
  unfolding build_groups
  build_groups-IsBuilt [] pbs h here = elim here [ ]
  build_groups-IsBuilt ((u, ps) ∷ groups) pbs h here =
      elim (Option-cases (Series.new (orders.series u) u ps)) [
        | inl panic ↦ absurd (ground (arith, panic))
        | inr (b, grouped) ↦ elim (Option-cases (build (orders.dicts u) b)) [
          | inl panic ↦ absurd (ground (arith, grouped, panic))
          | inr (pb, built) ↦ elim (Option-cases (build_groups orders groups)) [
            | inl panic ↦ absurd (ground (arith, grouped, built, panic))
            | inr (rest, done) ↦
                let same : pb ∷ rest ≡ pbs = ground (arith, grouped, built, done) in
                elim here [
                  | inl first ↦ record {
                    series = b;
                    grouped =
                        subst
                          (λ (g : Text × List Point).
                            Series.new (orders.series g.0) g.0 g.1 ≡ some b)
                          first grouped;
                    pb = pb;
                    built =
                        subst (λ (g : Text × List Point). build (orders.dicts g.0) b ≡ some pb)
                          first built;
                    among = subst (Memᴰ pb) same (Memᴰ.head refl);
                  }
                  | inr later ↦
                      let i = build_groups-IsBuilt groups rest done later in
                      record {
                        series = i.series;
                        grouped = i.grouped;
                        pb = i.pb;
                        built = i.built;
                        among = subst (Memᴰ i.pb) same (Memᴰ.tail i.among);
                      }
                ]
          ]
        ]
      ]

  -- The series, whatever their order, read back from what is built.
  arranged-decode :
      (m xs : SeriesMap) (pb : WriteTableRequestPb)
      → IsWellFormed (t, points)
      → group_series t [] points ≡ some m
      → Permᴰ m xs
      → build (orders.dicts t) (record { table = t; series_entires = values xs }) ≡ some pb
      → (pb.table ≡ t) × (decode pb ≡ some (values xs))
  arranged-decode m xs pb (own, range, tags, fields) grouped perm built =
      let b = group_series-IsBounded t [] points m grouped in
      let (pb', built', named, decoded) =
        decode-build (orders.dicts t) (record { table = t; series_entires = values xs })
          (omega (arith, b.tags, tags-Permᴰ perm)) (omega (arith, b.fields, fields-Permᴰ perm))
          (values_in_range xs (
            All-Permᴰ (λ (kv : List ℕ × SeriesEntry). SeriesInRange kv.1) perm
              (b.in_range range tt))) in
      let same : pb' ≡ pb = cc (sym built' ∙ built) in
      (ap (λ (q : WriteTableRequestPb). q.table) (sym same) ∙ named, ap decode (sym same) ∙ decoded)

  series-decode :
      (b : TableRequestPbBuilder) (pb : WriteTableRequestPb)
      → IsWellFormed (t, points)
      → Series.new (orders.series t) t points ≡ some b
      → build (orders.dicts t) b ≡ some pb
      → ∥ (pb.table ≡ t) × (decode pb ≡ some b.series_entires) ∥₁
  unfolding Series.new
  series-decode b pb well grouped built = elim (Option-cases (group_series t [] points)) [
    | inl panic ↦ absurd (ground (arith, panic))
    | inr (m, found) ↦
        let arranged = (orders.series t).arrange m in
        let same : ◌≡◌ {A = TableRequestPbBuilder}
            (record { table = t; series_entires = values arranged }) b =
          ground (arith, found, grouped) in
        ∥∥₁_map ((orders.series t).arrange-perm m) (λ perm.
          let (named, decoded) =
            arranged-decode m arranged pb well found (Permᴰ.symm perm)
              (ap (build (orders.dicts t)) same ∙ built) in
          (named, decoded ∙ ap (λ (q : TableRequestPbBuilder). some q.series_entires) same))
  ]

-- The request `pb` is for the table of the point, and reads back as series one of which holds the
-- point.
abbrev pub Carries : List Point → Point → WriteTableRequestPb → Type 0
Carries points p pb =
    (pb.table ≡ p.table)
    × (entries : List SeriesEntry) × (decode pb ≡ some entries)
    × Any (Holds points p) entries

selected : (p : Point) (ps : List Point) → Memᴰ p ps → Memᴰ p (select (has_table p.table) ps)
selected p [] m = elim m [ ]
selected p (q ∷ ps) (Memᴰ.head e) =
    let own : text_beq q.table p.table ≡ true =
      ground (arith, text_beq_iff q.table p.table, ap (λ (x : Point). x.table) e) in
    rw own (Memᴰ.head e)
selected p (q ∷ ps) (Memᴰ.tail m) = elim (Bool-cases (text_beq q.table p.table)) [
  | inl same ↦ rw same (Memᴰ.tail (selected p ps m))
  | inr differ ↦ rw differ (selected p ps m)
]

extend_new : (p : Point) (ps : List Point) → Memᴰ p ps → extend none ps ≡ some ps
extend_new p [] m = elim m [ ]
extend_new p (q ∷ ps) m = refl

group_of :
    (p : Point) (ps : List Point)
    → Memᴰ p ps
    → HashMap.get p.table (add_points empty_request ps).point_groups
      ≡ some (select (has_table p.table) ps)
unfolding HashMap.get
group_of p ps m =
    get-add_points empty_request p.table ps
    ∙ extend_new p (select (has_table p.table) ps) (selected p ps m)

Any-All : {A : Type 0} (P Q : A → Type 0) (xs : List A) → Any P xs → All Q xs → (x : A) × P x × Q x
Any-All P Q [] h k = elim h [ ]
Any-All P Q (x ∷ xs) (inl here) (k, ks) = (x, here, k)
Any-All P Q (x ∷ xs) (inr there) (k, ks) = Any-All P Q xs there ks

module _ (orders : Orders) (ps : List Point) (p : Point) (m : Memᴰ p ps)
    (encodable : AreEncodable ps) where
  abbrev own : List Point
  own = select (has_table p.table) ps

  own-IsWellFormed : IsWellFormed (p.table, own)
  own-IsWellFormed =
      let groups = (add_points empty_request ps).point_groups in
      let (group, is, well) =
        Any-All (IsGroup p.table own) IsWellFormed groups
          (get-IsGroup p.table own groups (group_of p ps m))
          (add_points-IsWellFormed ps encodable) in
      subst IsWellFormed is well

  built-Carries :
      (pbs : List WriteTableRequestPb) (i : IsBuilt orders p.table own pbs)
      → IsFaithful own p
      → ∥ Carries own p i.pb ∥₁
  built-Carries pbs i faithful =
      ∥∥₁_elim (series-decode orders p.table own i.series i.pb own-IsWellFormed i.grouped i.built)
        ∥∥₁_prop
        (λ (named, decoded).
          ∥∥₁_map
            (new-Holds (orders.series p.table) p.table own p i.series i.grouped (selected p ps m)
              faithful)
            (λ holds. (named, i.series.series_entires, decoded, holds)))

  -- A point that is added to an empty request arrives: if the values of all points added are in the
  -- ranges of their types, and the points have fewer than 2 ^ 32 tags and fewer than 2 ^ 32 fields
  -- together, and `p` is one of them such that no point of the same table with other tags has its
  -- tags key, then, whatever the iteration orders of the maps, building the protobuf form does not
  -- panic, and one of the table requests is for the table of `p` and reads back as series one of
  -- which has the tags of `p` and, under its timestamp, the fields of the last point of its table
  -- with its tags and timestamp.
  pub add_points-Carries :
      IsFaithful own p
      → (pbs : List WriteTableRequestPb) × (build_request orders (add_points empty_request ps)
          ≡ some pbs)
        × ∥ ((pb : WriteTableRequestPb) × Memᴰ pb pbs × Carries own p pb) ∥₁
  unfolding build_request
  add_points-Carries faithful =
      let req = add_points empty_request ps in
      elim (Option-cases (build_request orders req)) [
        | inl panic ↦
            absurd (build_request_total orders req (add_points-IsWellFormed ps encodable) panic)
        | inr (pbs, built) ↦ (
          pbs,
          built,
          ∥∥₁_elim (orders.groups.arrange-perm req.point_groups) ∥∥₁_prop (λ perm.
              let i =
                build_groups-IsBuilt orders p.table own (orders.groups.arrange req.point_groups) pbs
                  built
                  (Any-Permᴰ (IsGroup p.table own) (Permᴰ.symm perm)
                    (get-IsGroup p.table own req.point_groups (group_of p ps m))) in
              ∥∥₁_map (built-Carries pbs i faithful) (λ c. (i.pb, i.among, c))),
        )
      ]
