-- ===== src/Write/PbBuilder/Decode.antt =====
-- How a receiver reads a protobuf write request, as the test in src/model/write/request.rs does:
-- each index is looked up in the request's own list of names.
pub mod Named
pub mod RoundTrip
pub mod Sizes
pub mod Total
use incubator_horaedb_client.Prelude.{Option, none, some, List, [], ◌∷◌, Text, get_elem?}
use incubator_horaedb_client.Prelude.Int.{ℤ}
use incubator_horaedb_client.Prelude.BTreeMap.{BTreeMap}
use incubator_horaedb_client.Model.Value.{Value}
use incubator_horaedb_client.Model.Value.Proto.{ValuePb, from_pb}
use incubator_horaedb_client.Write.PbBuilder.{
  NamedPb, FieldGroupPb, WriteSeriesEntryPb, WriteTableRequestPb, ◌>>=◌,
}
use incubator_horaedb_client.Write.PbBuilder.Series.{SeriesEntry, Fields}

unfoldable pub decode_named : List Text → List NamedPb → Option (BTreeMap Text Value)
decode_named names [] = some []
decode_named names (pb ∷ pbs) = do
  name ← get_elem? names pb.name_index
  val ← pb.value
  rest ← decode_named names pbs
  some ((name, from_pb val) ∷ rest)

unfoldable pub decode_groups : List Text → List FieldGroupPb → Option (BTreeMap ℤ Fields)
decode_groups names [] = some []
decode_groups names (group ∷ groups) = do
  fields ← decode_named names group.fields
  rest ← decode_groups names groups
  some ((group.timestamp, fields) ∷ rest)

unfoldable pub decode_entry : List Text → List Text → WriteSeriesEntryPb → Option SeriesEntry
decode_entry tag_names field_names entry = do
  tags ← decode_named tag_names entry.tags
  groups ← decode_groups field_names entry.field_groups
  some (record { tags = tags; ts_fields = groups })

unfoldable pub decode_entries :
    List Text → List Text → List WriteSeriesEntryPb → Option (List SeriesEntry)
decode_entries tag_names field_names [] = some []
decode_entries tag_names field_names (entry ∷ entries) = do
  first ← decode_entry tag_names field_names entry
  rest ← decode_entries tag_names field_names entries
  some (first ∷ rest)

unfoldable pub decode : WriteTableRequestPb → Option (List SeriesEntry)
decode pb = decode_entries pb.tag_names pb.field_names pb.entries
