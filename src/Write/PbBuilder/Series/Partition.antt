-- ===== src/Write/PbBuilder/Series/Partition.antt =====
-- How `TableRequestPbBuilder::new` distributes the points of a table over its series.
use incubator_horaedb_client.Prelude.{
  ℕ, ◌≡◌, ◌≢◌, ◌↔◌, ◌∙◌, refl, sym, ap, inl, inr, true, false, none, some, List, [], ◌∷◌, Text,
  text_beq, text_beq_iff, text_eq, all, All, arith, Option-cases, Bool-cases,
}
use mathlib.Core.Logic.{∥∥₁_map}
use mathlib.Core.List.{Memᴰ}
use mathlib.Core.List.Permᴰ
use mathlib.Core.Path.{subst}
use incubator_horaedb_client.Prelude.Int.{int_ord}
use incubator_horaedb_client.Prelude.HashMap
use incubator_horaedb_client.Prelude.HashMap.{HashMap, HashOrder}
use incubator_horaedb_client.Prelude.BTreeMap
use incubator_horaedb_client.Prelude.BTreeMap.{BTreeMap, chosen}
use incubator_horaedb_client.Prelude.Rearrange.{Any, Any-Permᴰ}
use incubator_horaedb_client.Write.Point.{Point}
use incubator_horaedb_client.Write.PbBuilder.Series.{
  SeriesEntry, SeriesMap, make_tags_key, add_series_point, group_series, TableRequestPbBuilder,
  values, new,
}
use incubator_horaedb_client.Write.PbBuilder.Series.Collect.{
  has_key, last_fields, collect, get-group_series, fields_at, HasTags, fields-collect,
  collect-HasTags, collect-found,
}

group_series-none_iff :
    (table : Text) (m : SeriesMap) (ps : List Point)
    → (group_series table m ps ≡ none) ↔ (all (λ p. text_beq p.table table) ps ≡ false)
unfolding group_series
group_series-none_iff table m [] = (λ h. cc, λ h. cc)
group_series-none_iff table m (p ∷ ps) =
    let (sound, complete) = group_series-none_iff table (add_series_point m p) ps in
    (λ h. ground (arith, sound), λ h. ground (arith, complete))

-- The grouping panics exactly when some point belongs to another table.
pub new-none_iff :
    (order : HashOrder (List ℕ) SeriesEntry) (table : Text) (ps : List Point)
    → (new order table ps ≡ none) ↔ (all (λ p. text_beq p.table table) ps ≡ false)
unfolding new
new-none_iff order table ps =
    let (sound, complete) = group_series-none_iff table [] ps in
    (λ h. sound (ground arith), λ h. ground (arith, complete h))

get-Any :
    (P : SeriesEntry → Type 0) (key : List ℕ) (m : SeriesMap) {e : SeriesEntry}
    → HashMap.get key m ≡ some e
    → P e
    → Any (λ (kv : List ℕ × SeriesEntry). P kv.1) m
unfolding HashMap.get
get-Any P key [] h p = cc
get-Any P key ((k, v) ∷ m) h p = elim (Bool-cases (text_beq k key)) [
  | inl same ↦ inl (subst P (ground (arith, same)) p)
  | inr differ ↦ inr (get-Any P key m (ground (arith, differ)) p)
]

values-Any :
    (P : SeriesEntry → Type 0) (m : SeriesMap)
    → Any (λ (kv : List ℕ × SeriesEntry). P kv.1) m
    → Any P (values m)
values-Any P [] h = elim h [ ]
values-Any P ((k, v) ∷ m) (inl h) = inl h
values-Any P ((k, v) ∷ m) (inr h) = inr (values-Any P m h)

-- The series `e` has the tags of the point, and under its timestamp the fields of the last of the
-- points that shares the point's tags key and timestamp.
abbrev pub Holds : List Point → Point → SeriesEntry → Type 0
Holds ps p e =
    (e.tags ≡ p.tags)
    × (BTreeMap.get p.timestamp e.ts_fields
        ≡ last_fields (make_tags_key p.tags) p.timestamp none ps)

-- Points of one table with the tags key of `p` have the tags of `p`.
abbrev pub IsFaithful : List Point → Point → Type 0
IsFaithful ps p = All (λ q. has_key (make_tags_key p.tags) q ≡ true → q.tags ≡ p.tags) ps

collect-Holds :
    (ps : List Point) (p : Point) (e : SeriesEntry)
    → IsFaithful ps p
    → collect (make_tags_key p.tags) none ps ≡ some e
    → Holds ps p e
collect-Holds ps p e faithful found = (
  subst (HasTags p.tags) found (collect-HasTags (make_tags_key p.tags) p.tags none ps tt faithful),
  ap (fields_at p.timestamp) (sym found)
      ∙ fields-collect (make_tags_key p.tags) p.timestamp none ps,
)

new_of_panic :
    (order : HashOrder (List ℕ) SeriesEntry) (table : Text) (ps : List Point)
    (b : TableRequestPbBuilder)
    → group_series table [] ps ≡ none
    → new order table ps ≢ some b
unfolding new
new_of_panic order table ps b missing h = ground (arith, missing)

new_entries :
    (order : HashOrder (List ℕ) SeriesEntry) (table : Text) (ps : List Point)
    (b : TableRequestPbBuilder) {m : SeriesMap}
    → group_series table [] ps ≡ some m
    → new order table ps ≡ some b
    → b.series_entires ≡ values (order.arrange m)
unfolding new
new_entries order table ps b grouped h = ground (arith, grouped)

-- If no point of the batch with other tags has the tags key of `p`, then for the point `p` of the
-- batch there is a series with the tags of `p` that holds, under the timestamp of `p`, the fields of
-- the last point of the batch with the tags and the timestamp of `p`.
pub new-Holds :
    (order : HashOrder (List ℕ) SeriesEntry) (table : Text) (ps : List Point) (p : Point)
    (b : TableRequestPbBuilder)
    → new order table ps ≡ some b
    → Memᴰ p ps
    → IsFaithful ps p
    → ∥ Any (Holds ps p) b.series_entires ∥₁
unfolding HashMap.get
new-Holds order table ps p b h m faithful = elim (Option-cases (group_series table [] ps)) [
  | inl missing ↦ absurd (new_of_panic order table ps b missing h)
  | inr (m', grouped) ↦
      let key = make_tags_key p.tags in
      let (e, found) = collect-found key none p ps m ((text_beq_iff key key).1 refl) in
      let here =
        get-Any (Holds ps p) key m' (get-group_series table key [] ps grouped ∙ found)
          (collect-Holds ps p e faithful found) in
      ∥∥₁_map (order.arrange-perm m') (λ perm.
        subst (Any (Holds ps p)) (sym (new_entries order table ps b grouped h)) (
          values-Any (Holds ps p) (order.arrange m')
            (Any-Permᴰ (λ (kv : List ℕ × SeriesEntry). Holds ps p kv.1) (Permᴰ.symm perm) here)))
]
