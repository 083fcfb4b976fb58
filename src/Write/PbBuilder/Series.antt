-- ===== src/Write/PbBuilder/Series.antt =====
-- The series of a table in src/model/write/request.rs: its points, partitioned by their tags.
pub mod Collect
pub mod Partition
pub mod Collision
use incubator_horaedb_client.Prelude.{
  ℕ, Option, none, some, List, [], ◌∷◌, ◌++◌, Text, text_beq, text_eq, map, if◌then◌else◌,
}
use incubator_horaedb_client.Prelude.Int.{ℤ, int_ord}
use incubator_horaedb_client.Prelude.HashMap
use incubator_horaedb_client.Prelude.HashMap.{HashMap, HashOrder}
use incubator_horaedb_client.Prelude.BTreeMap
use incubator_horaedb_client.Prelude.BTreeMap.{BTreeMap}
use incubator_horaedb_client.Model.Value.{Value}
use incubator_horaedb_client.Model.Value.Bytes.{to_bytes}
use incubator_horaedb_client.Write.Point.{Point}

abbrev pub Fields : Type 0
Fields = BTreeMap Text Value

pub record SeriesEntry : Type 0 where
  pub tags : BTreeMap Text Value
  pub ts_fields : BTreeMap ℤ Fields

-- `make_tags_key`: the bytes of each name and value, one after the other.
unfoldable pub make_tags_key : BTreeMap Text Value → List ℕ
make_tags_key [] = []
make_tags_key ((name, val) ∷ tags) = name ++ (to_bytes val ++ make_tags_key tags)

abbrev pub SeriesMap : Type 0
SeriesMap = HashMap (List ℕ) SeriesEntry

abbrev pub empty_series : BTreeMap Text Value → SeriesEntry
empty_series tags = record { tags = tags; ts_fields = [] }

-- `ts_fields.insert(timestamp, fields)`.
unfoldable pub insert_fields : Point → SeriesEntry → SeriesEntry
insert_fields p entry = record entry {
  ts_fields = BTreeMap.insert p.timestamp p.fields entry.ts_fields;
}

-- One round of the loop of `TableRequestPbBuilder::new`, past its assertion.
unfoldable pub add_series_point : SeriesMap → Point → SeriesMap
add_series_point m p =
    HashMap.update (make_tags_key p.tags) (empty_series p.tags) (insert_fields p) m

-- The loop; `none` is the panic on a point of another table.
unfoldable pub group_series : Text → SeriesMap → List Point → Option SeriesMap
group_series table m [] = some m
group_series table m (p ∷ ps) =
    let rest = group_series table (add_series_point m p) ps in
    if text_beq p.table table then rest else none

pub record TableRequestPbBuilder : Type 0 where
  pub table : Text
  pub series_entires : List SeriesEntry

abbrev pub values : SeriesMap → List SeriesEntry
values [] = []
values ((key, entry) ∷ m) = entry ∷ values m

-- `TableRequestPbBuilder::new`.
unfoldable pub new :
    HashOrder (List ℕ) SeriesEntry → Text → List Point → Option TableRequestPbBuilder
unfolding group_series add_series_point
new order table points = elim (group_series table [] points) [
  | none ↦ none
  | some m ↦ some (record { table = table; series_entires = values (order.arrange m) })
]
