-- ===== src/Write/PbBuilder/Decode/RoundTrip.antt =====
-- The protobuf form of a table's series reads back as those series.
use incubator_horaedb_client.Prelude.{
  ℕ, ◌+◌, ◌<◌, ◌^◌, ◌≡◌, refl, some, List, [], ◌∷◌, Text, length, All, arith,
}
use incubator_horaedb_client.Prelude.Int.{ℤ}
use incubator_horaedb_client.Prelude.BTreeMap.{BTreeMap}
use incubator_horaedb_client.Write.PbBuilder.{
  FieldGroupPb, WriteSeriesEntryPb, WriteTableRequestPb, build_named, build_ts_fields, Building,
  build_series_entry, build_entries, DictOrders, build,
}
use incubator_horaedb_client.Write.PbBuilder.Names
use incubator_horaedb_client.Write.PbBuilder.Names.{NameDict}
use incubator_horaedb_client.Write.PbBuilder.Names.Numbering.{names, IsValid, Extends}
use incubator_horaedb_client.Write.PbBuilder.Names.Conversion.{convert_ordered_lem}
use incubator_horaedb_client.Write.PbBuilder.Series.{SeriesEntry, Fields, TableRequestPbBuilder}
use incubator_horaedb_client.Write.PbBuilder.Decode.{
  decode_groups, decode_entry, decode_entries, decode,
}
use incubator_horaedb_client.Write.PbBuilder.Decode.Named.{
  ValuesInRange, IsValid-mono, build_named-Named,
}

-- The uses of field names in a series, and of tag and field names in a table.
abbrev pub fields_count : BTreeMap ℤ Fields → ℕ
fields_count [] = 0
fields_count ((ts, fields) ∷ rest) = length fields + fields_count rest

abbrev pub table_tags_count : List SeriesEntry → ℕ
table_tags_count [] = 0
table_tags_count (entry ∷ entries) = length entry.tags + table_tags_count entries

abbrev pub table_fields_count : List SeriesEntry → ℕ
table_fields_count [] = 0
table_fields_count (entry ∷ entries) = fields_count entry.ts_fields + table_fields_count entries

abbrev pub SeriesInRange : SeriesEntry → Type 0
SeriesInRange entry =
    ValuesInRange entry.tags × All (λ (g : ℤ × Fields). ValuesInRange g.1) entry.ts_fields

record Grouped (room : ℕ) (d : NameDict) (ts_fields : BTreeMap ℤ Fields)
    (r : List FieldGroupPb × NameDict) : Type 0 where
  valid : IsValid room r.1
  kept : Extends (names d.dict) (names r.1.dict)
  decodes : (ns : List Text) → Extends (names r.1.dict) ns → decode_groups ns r.0 ≡ some ts_fields

build_ts_fields-Grouped :
    (room : ℕ) (d : NameDict) (ts_fields : BTreeMap ℤ Fields)
    → IsValid (fields_count ts_fields + room) d
    → All (λ (g : ℤ × Fields). ValuesInRange g.1) ts_fields
    → Grouped room d ts_fields (build_ts_fields d ts_fields)
unfolding build_ts_fields decode_groups
build_ts_fields-Grouped room d [] v h = record {
  valid = IsValid-mono (0 + room) room d (omega arith) v;
  kept = λ i n k. k;
  decodes = λ ns k. refl;
}
build_ts_fields-Grouped room d ((ts, fields) ∷ rest) v (here, h) =
    let first =
      build_named-Named (fields_count rest + room) d fields
        (IsValid-mono _ (length fields + (fields_count rest + room)) d (omega arith) v) here in
    let later = build_ts_fields-Grouped room (build_named d fields).1 rest first.valid h in
    record {
      valid = later.valid;
      kept = λ i n k. later.kept i n (first.kept i n k);
      decodes = λ ns k.
          ground (arith, first.decodes ns (λ i n p. k i n (later.kept i n p)), later.decodes ns k);
    }

-- Both dictionaries of a table after some of its series are built.
record Encoded (tag_room field_room : ℕ) (tags_dict fields_dict : NameDict)
    (entries : List SeriesEntry) (r : Building (List WriteSeriesEntryPb)) : Type 0 where
  tags_valid : IsValid tag_room r.tags_dict
  fields_valid : IsValid field_room r.fields_dict
  tags_kept : Extends (names tags_dict.dict) (names r.tags_dict.dict)
  fields_kept : Extends (names fields_dict.dict) (names r.fields_dict.dict)
  decodes :
      (ts fs : List Text)
      → Extends (names r.tags_dict.dict) ts
      → Extends (names r.fields_dict.dict) fs
      → decode_entries ts fs r.output ≡ some entries

build_entries-Encoded :
    (tag_room field_room : ℕ) (tags_dict fields_dict : NameDict) (entries : List SeriesEntry)
    → IsValid (table_tags_count entries + tag_room) tags_dict
    → IsValid (table_fields_count entries + field_room) fields_dict
    → All SeriesInRange entries
    → Encoded tag_room field_room tags_dict fields_dict entries
        (build_entries tags_dict fields_dict entries)
unfolding build_entries build_series_entry decode_entries decode_entry
build_entries-Encoded tag_room field_room td fd [] tv fv h = record {
  tags_valid = IsValid-mono (0 + tag_room) tag_room td (omega arith) tv;
  fields_valid = IsValid-mono (0 + field_room) field_room fd (omega arith) fv;
  tags_kept = λ i n k. k;
  fields_kept = λ i n k. k;
  decodes = λ ts fs p q. refl;
}
build_entries-Encoded tag_room field_room td fd (entry ∷ entries) tv fv ((tags_ok, fields_ok), h) =
    let tags =
      build_named-Named (table_tags_count entries + tag_room) td entry.tags
        (IsValid-mono _ (length entry.tags + (table_tags_count entries + tag_room)) td (omega arith)
          tv)
        tags_ok in
    let groups =
      build_ts_fields-Grouped (table_fields_count entries + field_room) fd entry.ts_fields
        (IsValid-mono _ (fields_count entry.ts_fields + (table_fields_count entries + field_room))
          fd (omega arith) fv)
        fields_ok in
    let later =
      build_entries-Encoded tag_room field_room (build_named td entry.tags).1
        (build_ts_fields fd entry.ts_fields).1 entries tags.valid groups.valid h in
    record {
      tags_valid = later.tags_valid;
      fields_valid = later.fields_valid;
      tags_kept = λ i n k. later.tags_kept i n (tags.kept i n k);
      fields_kept = λ i n k. later.fields_kept i n (groups.kept i n k);
      decodes = λ ts fs p q. ground (
        arith,
        tags.decodes ts (λ i n k. p i n (later.tags_kept i n k)),
        groups.decodes fs (λ i n k. q i n (later.fields_kept i n k)),
        later.decodes ts fs p q,
      );
    }

new_dict-IsValid : (room : ℕ) → room < 2 ^ 32 → IsValid room Names.new
new_dict-IsValid room h = record { numbered = tt; counted = refl; fits = omega arith }

-- If the tags of all series together are fewer than 2 ^ 32, and so are the fields, and every value
-- is in the range of its type, then building the request of a table does not panic, whatever the
-- iteration orders of its dictionaries. The request names the table, and a receiver that looks
-- every index up in the request's names reads back exactly the series.
pub decode-build :
    (orders : DictOrders) (b : TableRequestPbBuilder)
    → table_tags_count b.series_entires < 2 ^ 32
    → table_fields_count b.series_entires < 2 ^ 32
    → All SeriesInRange b.series_entires
    → (pb : WriteTableRequestPb) × (build orders b ≡ some pb)
      × (pb.table ≡ b.table)
      × (decode pb ≡ some b.series_entires)
unfolding build decode
decode-build orders b tags fields h =
    let done = build_entries Names.new Names.new b.series_entires in
    let e =
      build_entries-Encoded 0 0 Names.new Names.new b.series_entires
        (new_dict-IsValid _ (omega arith)) (new_dict-IsValid _ (omega arith)) h in
    (
      record {
        table = b.table;
        tag_names = names done.tags_dict.dict;
        field_names = names done.fields_dict.dict;
        entries = done.output;
      },
      ground (
        arith,
        convert_ordered_lem orders.tags done.tags_dict e.tags_valid.numbered,
        convert_ordered_lem orders.fields done.fields_dict e.fields_valid.numbered,
      ),
      refl,
      e.decodes _ _ (λ i n k. k) (λ i n k. k),
    )
