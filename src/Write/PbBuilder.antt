-- ===== src/Write/PbBuilder.antt =====
-- `pb_builder` of src/model/write/request.rs: write requests in their protobuf form.
pub mod Names
pub mod Series
pub mod Decode
use incubator_horaedb_client.Prelude.{
  ℕ, Option, none, some, List, [], ◌∷◌, ◌++◌, Text, text_eq, map,
}
use incubator_horaedb_client.Prelude.Int.{ℤ}
use incubator_horaedb_client.Prelude.HashMap.{HashMap, HashOrder}
use incubator_horaedb_client.Prelude.BTreeMap.{BTreeMap}
use incubator_horaedb_client.Model.Value.{Value}
use incubator_horaedb_client.Model.Value.Proto.{ValuePb, to_pb}
use incubator_horaedb_client.Write.Point.{Point}
use incubator_horaedb_client.Write.Request.{Request}
use Names
use Names.{NameDict}
use Series
use Series.{SeriesEntry, Fields, TableRequestPbBuilder}

-- `storage::Tag` and `storage::Field`: a number of a name dictionary and a value.
pub record NamedPb : Type 0 where
  pub name_index : ℕ
  pub value : Option ValuePb

pub record FieldGroupPb : Type 0 where
  pub timestamp : ℤ
  pub fields : List NamedPb

pub record WriteSeriesEntryPb : Type 0 where
  pub tags : List NamedPb
  pub field_groups : List FieldGroupPb

pub record WriteTableRequestPb : Type 0 where
  pub table : Text
  pub tag_names : List Text
  pub field_names : List Text
  pub entries : List WriteSeriesEntryPb

-- `build_tags`, and the same loop over the fields of one timestamp in `build_ts_fields`.
unfoldable pub build_named : NameDict → BTreeMap Text Value → List NamedPb × NameDict
build_named d [] = ([], d)
build_named d ((name, val) ∷ rest) =
    let (idx, d') = Names.insert d name in
    let (pbs, d'') = build_named d' rest in
    (record { name_index = idx; value = some (to_pb val) } ∷ pbs, d'')

unfoldable pub build_ts_fields : NameDict → BTreeMap ℤ Fields → List FieldGroupPb × NameDict
unfolding build_named
build_ts_fields d [] = ([], d)
build_ts_fields d ((ts, fields) ∷ rest) =
    let (field_pbs, d') = build_named d fields in
    let (groups, d'') = build_ts_fields d' rest in
    (record { timestamp = ts; fields = field_pbs } ∷ groups, d'')

-- The tags dictionary, the fields dictionary and the entries built.
pub record Building (A : Type 0) : Type 0 where
  pub tags_dict : NameDict
  pub fields_dict : NameDict
  pub output : A

unfoldable pub build_series_entry : NameDict → NameDict → SeriesEntry → Building WriteSeriesEntryPb
build_series_entry tags_dict fields_dict entry =
    let (tags, tags_dict') = build_named tags_dict entry.tags in
    let (groups, fields_dict') = build_ts_fields fields_dict entry.ts_fields in
    record {
      tags_dict = tags_dict';
      fields_dict = fields_dict';
      output = record { tags = tags; field_groups = groups };
    }

unfoldable pub build_entries :
    NameDict → NameDict → List SeriesEntry → Building (List WriteSeriesEntryPb)
build_entries tags_dict fields_dict [] = record {
  tags_dict = tags_dict;
  fields_dict = fields_dict;
  output = [];
}
build_entries tags_dict fields_dict (entry ∷ entries) =
    let first = build_series_entry tags_dict fields_dict entry in
    let rest = build_entries first.tags_dict first.fields_dict entries in
    record {
      tags_dict = rest.tags_dict;
      fields_dict = rest.fields_dict;
      output = first.output ∷ rest.output;
    }

-- The orders in which the two dictionaries of a table yield their entries.
pub record DictOrders : Type 0 where
  pub tags : HashOrder Text ℕ
  pub fields : HashOrder Text ℕ

infixl 5 ◌>>=◌
abbrev pub ◌>>=◌ : {A B : Type 0} → Option A → (A → Option B) → Option B
none >>= k = none
some a >>= k = k a

-- `TableRequestPbBuilder::build`; `none` is a panic.
unfoldable pub build : DictOrders → TableRequestPbBuilder → Option WriteTableRequestPb
build orders b = do
  let done = build_entries Names.new Names.new b.series_entires
  tag_names ← Names.convert_ordered orders.tags done.tags_dict
  field_names ← Names.convert_ordered orders.fields done.fields_dict
  some (record {
    table = b.table;
    tag_names = tag_names;
    field_names = field_names;
    entries = done.output;
  })

-- The iteration orders of one conversion: of the groups, of the series of each table, and of the
-- dictionaries of each table.
pub record Orders : Type 0 where
  pub groups : HashOrder Text (List Point)
  pub series : Text → HashOrder (List ℕ) SeriesEntry
  pub dicts : Text → DictOrders

unfoldable pub build_groups : Orders → List (Text × List Point) → Option (List WriteTableRequestPb)
build_groups orders [] = some []
build_groups orders ((table, points) ∷ rest) = do
  builder ← Series.new (orders.series table) table points
  pb ← build (orders.dicts table) builder
  pbs ← build_groups orders rest
  some (pb ∷ pbs)

-- `WriteTableRequestPbsBuilder::build`.
unfoldable pub build_request : Orders → Request → Option (List WriteTableRequestPb)
unfolding build_groups
build_request orders req = build_groups orders (orders.groups.arrange req.point_groups)
