-- ===== src/Write/PbBuilder/Series/Collision.antt =====
-- Points with different tags and one tags key fall into one series.
use incubator_horaedb_client.Prelude.{
  ℕ, ◌≡◌, ◌≢◌, some, List, [], ◌∷◌, Text, text_beq_iff, text_eq, arith,
}
use mathlib.Core.Logic.{∥∥₁_elim, inl, inr}
use mathlib.Core.HLevel.{⊥_prop}
use incubator_horaedb_client.Prelude.HashMap.{HashOrder, update}
use incubator_horaedb_client.Prelude.Rearrange.{Any, Any-Permᴰ}
use incubator_horaedb_client.Write.Point.{Point}
use incubator_horaedb_client.Write.PbBuilder.Series.{
  SeriesEntry, SeriesMap, make_tags_key, empty_series, insert_fields, add_series_point,
  group_series, TableRequestPbBuilder, values, new,
}

abbrev merged : Point → Point → SeriesMap
merged p q = (make_tags_key p.tags, insert_fields q (insert_fields p (empty_series p.tags))) ∷ []

group_series_collision :
    (table : Text) (p q : Point)
    → p.table ≡ table
    → q.table ≡ table
    → make_tags_key p.tags ≡ make_tags_key q.tags
    → group_series table [] (p ∷ q ∷ []) ≡ some (merged p q)
unfolding group_series add_series_point update
group_series_collision table p q hp hq same = ground (
  arith,
  text_beq_iff p.table table,
  text_beq_iff q.table table,
  text_beq_iff (make_tags_key p.tags) (make_tags_key q.tags),
)

values_origin :
    (P : SeriesEntry → Type 0) (m : SeriesMap)
    → Any P (values m)
    → Any (λ (kv : List ℕ × SeriesEntry). P kv.1) m
values_origin P [] h = h
values_origin P ((k, v) ∷ m) (inl h) = inl h
values_origin P ((k, v) ∷ m) (inr h) = inr (values_origin P m h)

-- If two points of a table have different tags but the same tags key, the builder of the two has no
-- series with the tags of the second point.
pub collision_drops_tags :
    (order : HashOrder (List ℕ) SeriesEntry) (table : Text) (p q : Point)
    → p.table ≡ table
    → q.table ≡ table
    → make_tags_key p.tags ≡ make_tags_key q.tags
    → p.tags ≢ q.tags
    → (b : TableRequestPbBuilder) × (new order table (p ∷ q ∷ []) ≡ some b)
      × ¬ Any (λ e. e.tags ≡ q.tags) b.series_entires
unfolding new insert_fields
collision_drops_tags order table p q hp hq same differ = (
  record { table = table; series_entires = values (order.arrange (merged p q)) },
  ground (arith, group_series_collision table p q hp hq same),
  λ h. ∥∥₁_elim (order.arrange-perm (merged p q)) ⊥_prop (λ perm.
      elim (Any-Permᴰ (λ (kv : List ℕ × SeriesEntry). kv.1.tags ≡ q.tags) perm
        (values_origin (λ e. e.tags ≡ q.tags) (order.arrange (merged p q)) h)) [
          | inl e ↦ differ e
          | inr none_left ↦ none_left
        ]),
)
