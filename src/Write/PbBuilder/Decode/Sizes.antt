-- ===== src/Write/PbBuilder/Decode/Sizes.antt =====
-- The series of a table in src/model/write/request.rs hold no more names and no other values than
-- its points.
use incubator_horaedb_client.Prelude.{
  ℕ, ◌+◌, ◌≤◌, ◌≡◌, ◌∙◌, refl, ap, subst, some, List, [], ◌∷◌, Text, text_eq, text_beq, length,
  arith, All, Bool-cases, inl, inr,
}
use mathlib.Core.List.{Permᴰ}
use incubator_horaedb_client.Prelude.Int.{ℤ, int_ord}
use incubator_horaedb_client.Prelude.HashMap
use incubator_horaedb_client.Prelude.HashMap.{HashMap}
use incubator_horaedb_client.Prelude.BTreeMap
use incubator_horaedb_client.Prelude.BTreeMap.{BTreeMap}
use incubator_horaedb_client.Write.Point.{Point}
use incubator_horaedb_client.Write.PbBuilder.Series.{
  SeriesEntry, Fields, SeriesMap, make_tags_key, empty_series, insert_fields, add_series_point,
  group_series, values,
}
use incubator_horaedb_client.Write.PbBuilder.Decode.Named.{ValuesInRange}
use incubator_horaedb_client.Write.PbBuilder.Decode.RoundTrip.{
  fields_count, table_tags_count, table_fields_count, SeriesInRange,
}

abbrev pub PointInRange : Point → Type 0
PointInRange p = ValuesInRange p.tags × ValuesInRange p.fields

-- The tags and the fields of all points together.
abbrev pub tags_total : List Point → ℕ
tags_total [] = 0
tags_total (p ∷ ps) = length p.tags + tags_total ps

abbrev pub fields_total : List Point → ℕ
fields_total [] = 0
fields_total (p ∷ ps) = length p.fields + fields_total ps

abbrev pub EntriesInRange : SeriesMap → Type 0
EntriesInRange = All (λ (kv : List ℕ × SeriesEntry). SeriesInRange kv.1)

fields_count-insert :
    (ts : ℤ) (fields : Fields) (m : BTreeMap ℤ Fields)
    → fields_count (BTreeMap.insert ts fields m) ≤ length fields + fields_count m
unfolding BTreeMap.insert
fields_count-insert ts fields [] = omega arith
fields_count-insert ts fields ((t, f) ∷ m) = ground (arith, fields_count-insert ts fields m)

range-insert :
    (ts : ℤ) (fields : Fields) (m : BTreeMap ℤ Fields)
    → ValuesInRange fields
    → All (λ (g : ℤ × Fields). ValuesInRange g.1) m
    → All (λ (g : ℤ × Fields). ValuesInRange g.1) (BTreeMap.insert ts fields m)
unfolding BTreeMap.insert
range-insert ts fields [] h k = (h, tt)
range-insert ts fields ((t, f) ∷ m) h (here, k) = ground (arith, range-insert ts fields m h k)

module _ (key : List ℕ) (p : Point) where
  abbrev absorbed : SeriesMap → SeriesMap
  absorbed m = HashMap.update key (empty_series p.tags) (insert_fields p) m

  tags-absorbed :
      (m : SeriesMap)
      → table_tags_count (values (absorbed m)) ≤ length p.tags + table_tags_count (values m)
  unfolding HashMap.update insert_fields
  tags-absorbed [] = omega arith
  tags-absorbed ((j, e) ∷ m) = ground (arith, tags-absorbed m)

  fields-absorbed :
      (m : SeriesMap)
      → table_fields_count (values (absorbed m)) ≤ length p.fields + table_fields_count (values m)
  unfolding HashMap.update insert_fields
  fields-absorbed [] = omega (arith, fields_count-insert p.timestamp p.fields [])
  fields-absorbed ((j, e) ∷ m) =
      ground (arith, fields-absorbed m, fields_count-insert p.timestamp p.fields e.ts_fields)

  range-absorbed : (m : SeriesMap) → PointInRange p → EntriesInRange m → EntriesInRange (absorbed m)
  unfolding HashMap.update insert_fields
  range-absorbed [] (tags, fields) k = ((tags, range-insert p.timestamp p.fields [] fields tt), tt)
  range-absorbed ((j, e) ∷ m) (tags, fields) ((own, ts), k) = elim (Bool-cases (text_beq j key)) [
    | inl same ↦
        rw (same, HashMap.update)
          ((own, range-insert p.timestamp p.fields e.ts_fields fields ts), k)
    | inr differ ↦ rw (differ, HashMap.update) ((own, ts), range-absorbed m (tags, fields) k)
  ]

-- What grouping makes of a map of series.
pub record IsBounded (m m' : SeriesMap) (ps : List Point) : Type 0 where
  pub tags : table_tags_count (values m') ≤ tags_total ps + table_tags_count (values m)
  pub fields : table_fields_count (values m') ≤ fields_total ps + table_fields_count (values m)
  pub in_range : All PointInRange ps → EntriesInRange m → EntriesInRange m'

pub group_series-IsBounded :
    (table : Text) (m : SeriesMap) (ps : List Point) (m' : SeriesMap)
    → group_series table m ps ≡ some m'
    → IsBounded m m' ps
unfolding group_series add_series_point
group_series-IsBounded table m [] m' h =
    let same : m ≡ m' = ground arith in
    subst (λ n. IsBounded m n []) same
      (record { tags = omega arith; fields = omega arith; in_range = λ r k. k })
group_series-IsBounded table m (p ∷ ps) m' h =
    let key = make_tags_key p.tags in
    let rest = group_series-IsBounded table (add_series_point m p) ps m' (ground arith) in
    record {
      tags = omega (arith, rest.tags, tags-absorbed key p m);
      fields = omega (arith, rest.fields, fields-absorbed key p m);
      in_range = λ r k. rest.in_range r.1 (range-absorbed key p m r.0 k);
    }

pub tags-Permᴰ :
    {xs ys : SeriesMap} → Permᴰ xs ys → table_tags_count (values xs) ≡ table_tags_count (values ys)
tags-Permᴰ Permᴰ.nil = refl
tags-Permᴰ (Permᴰ.cons e d) =
    omega (arith, tags-Permᴰ d, ap (λ (kv : List ℕ × SeriesEntry). length kv.1.tags) e)
tags-Permᴰ (Permᴰ.swap e f) = omega (
  arith,
  ap (λ (kv : List ℕ × SeriesEntry). length kv.1.tags) e,
  ap (λ (kv : List ℕ × SeriesEntry). length kv.1.tags) f,
)
tags-Permᴰ (Permᴰ.trans d d') = tags-Permᴰ d ∙ tags-Permᴰ d'

pub fields-Permᴰ :
    {xs ys : SeriesMap}
    → Permᴰ xs ys
    → table_fields_count (values xs) ≡ table_fields_count (values ys)
fields-Permᴰ Permᴰ.nil = refl
fields-Permᴰ (Permᴰ.cons e d) =
    omega (arith, fields-Permᴰ d, ap (λ (kv : List ℕ × SeriesEntry). fields_count kv.1.ts_fields) e)
fields-Permᴰ (Permᴰ.swap e f) = omega (
  arith,
  ap (λ (kv : List ℕ × SeriesEntry). fields_count kv.1.ts_fields) e,
  ap (λ (kv : List ℕ × SeriesEntry). fields_count kv.1.ts_fields) f,
)
fields-Permᴰ (Permᴰ.trans d d') = fields-Permᴰ d ∙ fields-Permᴰ d'

pub values_in_range : (m : SeriesMap) → EntriesInRange m → All SeriesInRange (values m)
values_in_range [] h = tt
values_in_range ((key, e) ∷ m) (here, h) = (here, values_in_range m h)
