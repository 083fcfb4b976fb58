-- ===== src/Write/Point.antt =====
-- src/model/write/point.rs: a point and its builder.
pub mod Build
use incubator_horaedb_client.Prelude.{
  Bool, true, false, ◌||◌, Option, some, none, [], Text, text, eq_ignore_ascii_case, is_empty,
  if◌then◌else◌, text_ord,
}
use incubator_horaedb_client.Prelude.Int.{ℤ}
use incubator_horaedb_client.Prelude.BTreeMap
use incubator_horaedb_client.Prelude.BTreeMap.{BTreeMap}
use incubator_horaedb_client.Model.Value.{Value}

unfoldable pub is_reserved_column_name : Text → Bool
is_reserved_column_name name =
    eq_ignore_ascii_case name (text "tsid") || eq_ignore_ascii_case name (text "timestamp")

pub record Point : Type 0 where
  pub table : Text
  pub timestamp : ℤ
  pub tags : BTreeMap Text Value
  pub fields : BTreeMap Text Value

pub record PointBuilder : Type 0 where
  pub table : Text
  pub timestamp : Option ℤ
  pub tags : BTreeMap Text Value
  pub fields : BTreeMap Text Value
  pub contains_reserved_column_name : Bool

unfoldable pub new : Text → PointBuilder
new table = record {
  table = table;
  timestamp = none;
  tags = [];
  fields = [];
  contains_reserved_column_name = false;
}

unfoldable pub table : PointBuilder → Text → PointBuilder
table b name = record b { table = name }

unfoldable pub timestamp : PointBuilder → ℤ → PointBuilder
timestamp b ts = record b { timestamp = some ts }

unfoldable pub tag : PointBuilder → Text → Value → PointBuilder
tag b name value = record b {
  tags = BTreeMap.insert name value b.tags;
  contains_reserved_column_name =
      if is_reserved_column_name name then true else b.contains_reserved_column_name;
}

unfoldable pub field : PointBuilder → Text → Value → PointBuilder
field b name value = record b {
  fields = BTreeMap.insert name value b.fields;
  contains_reserved_column_name =
      if is_reserved_column_name name then true else b.contains_reserved_column_name;
}

-- `Result<Point, String>`.
pub data BuildResult : Type 0 where
  built : Point → BuildResult
  refused : Text → BuildResult

abbrev pub reserved_error : Text
reserved_error = text "Tag or field name reserved column name in horaedb"

abbrev pub no_field_error : Text
no_field_error = text "Fields should not be empty"

abbrev pub no_timestamp_error : Text
no_timestamp_error = text "Timestamp must be set"

unfoldable pub build : PointBuilder → BuildResult
build b =
    if b.contains_reserved_column_name
    then refused reserved_error
    else if is_empty b.fields
    then refused no_field_error
    else elim b.timestamp [
      | none ↦ refused no_timestamp_error
      | some ts ↦
          built (record { table = b.table; timestamp = ts; tags = b.tags; fields = b.fields })
    ]
