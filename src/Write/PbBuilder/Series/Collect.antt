-- ===== src/Write/PbBuilder/Series/Collect.antt =====
-- The series of one tags key in src/model/write/request.rs, point by point.
use incubator_horaedb_client.Prelude.{
  ℕ, ◌≡◌, ◌∙◌, refl, ap, Bool, true, Option, none, some, List, [], ◌∷◌, Text, text_beq,
  text_beq_iff, text_eq, All, if◌then◌else◌, arith,
}
use mathlib.Core.List.{Memᴰ}
use mathlib.Core.Path.{subst}
use incubator_horaedb_client.Prelude.Int.{ℤ, int_ord, int_cmp}
use incubator_horaedb_client.Prelude.HashMap
use incubator_horaedb_client.Prelude.HashMap.{HashMap, HashOrder}
use incubator_horaedb_client.Prelude.BTreeMap
use incubator_horaedb_client.Prelude.BTreeMap.{BTreeMap, chosen}
use incubator_horaedb_client.Model.Value.{Value}
use incubator_horaedb_client.Write.Point.{Point}
use incubator_horaedb_client.Write.PbBuilder.Series.{
  SeriesEntry, Fields, SeriesMap, make_tags_key, empty_series, insert_fields, add_series_point,
  group_series,
}

abbrev pub has_key : List ℕ → Point → Bool
has_key key p = text_beq (make_tags_key p.tags) key

-- The fields of the last point with the key and the timestamp, or what stood there before.
abbrev pub last_fields : List ℕ → ℤ → Option Fields → List Point → Option Fields
last_fields key ts old [] = old
last_fields key ts old (p ∷ ps) =
    last_fields key ts (if has_key key p then chosen (int_cmp ts p.timestamp) p.fields old else old)
      ps

-- The series of a key after one more point, and after more points.
abbrev absorb : List ℕ → Point → Option SeriesEntry → Option SeriesEntry
absorb key p none = if has_key key p then some (insert_fields p (empty_series p.tags)) else none
absorb key p (some e) = if has_key key p then some (insert_fields p e) else some e

abbrev pub collect : List ℕ → Option SeriesEntry → List Point → Option SeriesEntry
collect key o [] = o
collect key o (p ∷ ps) = collect key (absorb key p o) ps

get-add_series_point :
    (key : List ℕ) (m : SeriesMap) (p : Point)
    → HashMap.get key (add_series_point m p) ≡ collect key (HashMap.get key m) (p ∷ [])
unfolding add_series_point
get-add_series_point key m p = ground (
  arith,
  HashMap.get-update (make_tags_key p.tags) key (empty_series p.tags) (insert_fields p) m,
  text_beq_iff (make_tags_key p.tags) key,
)

pub get-group_series :
    (table : Text) (key : List ℕ) (m : SeriesMap) (ps : List Point) {m' : SeriesMap}
    → group_series table m ps ≡ some m'
    → HashMap.get key m' ≡ collect key (HashMap.get key m) ps
unfolding group_series
get-group_series table key m [] h = ground arith
get-group_series table key m (p ∷ ps) h =
    get-group_series table key (add_series_point m p) ps (ground arith)
    ∙ ap (λ o. collect key o ps) (get-add_series_point key m p)

no_fields : (ts : ℤ) → BTreeMap.get {V = Fields} ts [] ≡ none
unfolding BTreeMap.get
no_fields ts = refl

abbrev pub fields_at : ℤ → Option SeriesEntry → Option Fields
fields_at ts none = none
fields_at ts (some e) = BTreeMap.get ts e.ts_fields

abbrev pub HasTags : BTreeMap Text Value → Option SeriesEntry → Type 0
HasTags tags none = Unit
HasTags tags (some e) = e.tags ≡ tags

module _ (key : List ℕ) where
  fields-absorb :
      (ts : ℤ) (p : Point) (o : Option SeriesEntry)
      → fields_at ts (absorb key p o) ≡ (
          if has_key key p
          then chosen (int_cmp ts p.timestamp) p.fields (fields_at ts o)
          else fields_at ts o)
  unfolding insert_fields
  fields-absorb ts p none =
      ground (arith, BTreeMap.get-insert p.timestamp ts p.fields [], no_fields ts)
  fields-absorb ts p (some e) =
      ground (arith, BTreeMap.get-insert p.timestamp ts p.fields e.ts_fields)

  pub fields-collect :
      (ts : ℤ) (o : Option SeriesEntry) (ps : List Point)
      → fields_at ts (collect key o ps) ≡ last_fields key ts (fields_at ts o) ps
  fields-collect ts o [] = refl
  fields-collect ts o (p ∷ ps) =
      fields-collect ts (absorb key p o) ps
      ∙ ap (λ f. last_fields key ts f ps) (fields-absorb ts p o)

  absorb-HasTags :
      (tags : BTreeMap Text Value) (p : Point) (o : Option SeriesEntry)
      → HasTags tags o
      → (has_key key p ≡ true → p.tags ≡ tags)
      → HasTags tags (absorb key p o)
  unfolding insert_fields
  absorb-HasTags tags p none k here = ground arith
  absorb-HasTags tags p (some e) k here = ground arith

  pub collect-HasTags :
      (tags : BTreeMap Text Value) (o : Option SeriesEntry) (ps : List Point)
      → HasTags tags o
      → All (λ q. has_key key q ≡ true → q.tags ≡ tags) ps
      → HasTags tags (collect key o ps)
  collect-HasTags tags o [] k h = k
  collect-HasTags tags o (p ∷ ps) k (here, h) =
      collect-HasTags tags (absorb key p o) ps (absorb-HasTags tags p o k here) h

  absorb-some :
      (p : Point) (e : SeriesEntry) → (e' : SeriesEntry) × (absorb key p (some e) ≡ some e')
  absorb-some p e = (if has_key key p then insert_fields p e else e, ground arith)

  collect-some :
      (e : SeriesEntry) (ps : List Point) → (e' : SeriesEntry) × (collect key (some e) ps ≡ some e')
  collect-some e [] = (e, refl)
  collect-some e (p ∷ ps) =
      let (e', same) = absorb-some p e in
      let (found, last) = collect-some e' ps in (found, ap (λ o. collect key o ps) same ∙ last)

  absorb-found :
      (p : Point) (o : Option SeriesEntry)
      → has_key key p ≡ true
      → (e : SeriesEntry) × (absorb key p o ≡ some e)
  absorb-found p none h = (insert_fields p (empty_series p.tags), ground arith)
  absorb-found p (some e) h = (insert_fields p e, ground arith)

  pub collect-found :
      (o : Option SeriesEntry) (p : Point) (ps : List Point)
      → Memᴰ p ps
      → has_key key p ≡ true
      → (e : SeriesEntry) × (collect key o ps ≡ some e)
  collect-found o p [] m h = elim m [ ]
  collect-found o p (q ∷ ps) (Memᴰ.head e) h =
      let (found, same) = absorb-found q o (subst (λ r. has_key key r ≡ true) e h) in
      let (final, last) = collect-some found ps in (final, ap (λ r. collect key r ps) same ∙ last)
  collect-found o p (q ∷ ps) (Memᴰ.tail m) h = collect-found (absorb key q o) p ps m h
