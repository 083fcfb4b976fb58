-- ===== src/Tests/Writes.antt =====
-- Tests of src/model/write/: points, requests and their protobuf form.
use incubator_horaedb_client.Prelude.{
  ℕ, ◌≡◌, refl, none, some, List, [], ◌∷◌, Text, text, text_eq, text_ord, eq_ignore_ascii_case,
  text_beq, arith,
}
use mathlib.Core.List.{Memᴰ}
use mathlib.Core.List.Perm
use incubator_horaedb_client.Prelude.Int.{pos, int_ord, int_cmp}
use incubator_horaedb_client.Prelude.BTreeMap
use incubator_horaedb_client.Prelude.BTreeMap.{BTreeMap}
use incubator_horaedb_client.Prelude.HashMap
use incubator_horaedb_client.Prelude.HashMap.{HashMap, HashOrder}
use incubator_horaedb_client.Prelude.Rearrange.{Any}
use incubator_horaedb_client.Model.Value.{Value}
use incubator_horaedb_client.Model.Value.Value.{uint32, string}
use incubator_horaedb_client.Model.Value.Bytes.{to_bytes}
use incubator_horaedb_client.Write.Point.{
  Point, new, build, refused, no_timestamp_error, is_reserved_column_name,
}
use incubator_horaedb_client.Write.Point.Build.{Call, add_tag, add_field, run, build-run, run-maps}
use incubator_horaedb_client.Write.Request.{empty_request, add_points}
use incubator_horaedb_client.Write.PbBuilder.{DictOrders, Orders, WriteTableRequestPb, build_named}
use incubator_horaedb_client.Write.PbBuilder
use incubator_horaedb_client.Write.PbBuilder.Series
use incubator_horaedb_client.Write.PbBuilder.Series.{
  SeriesEntry, TableRequestPbBuilder, make_tags_key,
}
use incubator_horaedb_client.Write.PbBuilder.Series.Collision.{collision_drops_tags}
use incubator_horaedb_client.Write.PbBuilder.Decode.{decode}
use incubator_horaedb_client.Write.PbBuilder.Decode.RoundTrip.{decode-build}
use incubator_horaedb_client.Write.Arrives.{Carries, add_points-Carries}

abbrev in_order : {K V : Type 0} → HashOrder K V
in_order = record { arrange = λ m. m; arrange-perm = λ m. Perm.refl m }

abbrev tags_of : Text → BTreeMap Text Value
tags_of host = (text "host", string host) ∷ []

abbrev fields_of : ℕ → BTreeMap Text Value
fields_of load = (text "load", uint32 load) ∷ []

abbrev point : Text → ℕ → ℕ → Point
point host ts load = record {
  table = text "cpu";
  timestamp = pos ts;
  tags = tags_of host;
  fields = fields_of load;
}

abbrev series : TableRequestPbBuilder
series = record {
  table = text "cpu";
  series_entires =
      record {
        tags = tags_of (text "a");
        ts_fields = (pos 1, fields_of 10) ∷ (pos 2, fields_of 20) ∷ [];
      }
      ∷ record { tags = tags_of (text "b"); ts_fields = (pos 1, fields_of 30) ∷ [] }
      ∷ [];
}

abbrev dict_orders : DictOrders
dict_orders = record { tags = in_order; fields = in_order }

decode-build_example :
    (pb : WriteTableRequestPb) × (PbBuilder.build dict_orders series ≡ some pb)
    × (pb.table ≡ text "cpu")
    × (decode pb ≡ some series.series_entires)
decode-build_example = decode-build dict_orders series (omega arith) (omega arith) (ground arith)

abbrev batch : List Point
batch = point (text "a") 1 10 ∷ point (text "b") 1 30 ∷ point (text "a") 1 11 ∷ []

abbrev grouped : TableRequestPbBuilder
grouped = record {
  table = text "cpu";
  series_entires =
      record { tags = tags_of (text "a"); ts_fields = (pos 1, fields_of 11) ∷ [] }
      ∷ record { tags = tags_of (text "b"); ts_fields = (pos 1, fields_of 30) ∷ [] }
      ∷ [];
}

new-grouped : Series.new in_order (text "cpu") batch ≡ some grouped
unfolding Series.new text_beq HashMap.update make_tags_key to_bytes Series.insert_fields
    BTreeMap.insert int_cmp
new-grouped = refl

-- The tags {"a": "bc"} and {"ab": "c"}.
abbrev colliding : Text → Text → Point
colliding name val = record {
  table = text "cpu";
  timestamp = pos 1;
  tags = (name, string val) ∷ [];
  fields = fields_of 1;
}

same_key :
    make_tags_key (colliding (text "a") (text "bc")).tags
    ≡ make_tags_key (colliding (text "ab") (text "c")).tags
unfolding make_tags_key to_bytes
same_key = refl

collision_drops_tags_example :
    (b : TableRequestPbBuilder) × (Series.new in_order
        (text "cpu")
        (colliding (text "a") (text "bc") ∷ colliding (text "ab") (text "c") ∷ [])
      ≡ some b)
    × ¬ Any (λ e. e.tags ≡ (colliding (text "ab") (text "c")).tags) b.series_entires
collision_drops_tags_example =
    collision_drops_tags in_order (text "cpu") (colliding (text "a") (text "bc"))
      (colliding (text "ab") (text "c")) refl refl same_key (λ e. cc)

abbrev calls : List Call
calls =
    add_tag (text "host") (string (text "a"))
    ∷ add_field (text "load") (uint32 1)
    ∷ add_field (text "load") (uint32 2)
    ∷ []

build-run_example : build (run (new (text "cpu")) calls) ≡ refused no_timestamp_error
unfolding is_reserved_column_name eq_ignore_ascii_case
build-run_example = build-run (text "cpu") calls

run-maps_example :
    (BTreeMap.get (text "load") (run (new (text "cpu")) calls).tags ≡ none)
    × (BTreeMap.get (text "load") (run (new (text "cpu")) calls).fields ≡ some (uint32 2))
    × BTreeMap.IsSorted (run (new (text "cpu")) calls).tags
    × BTreeMap.IsSorted (run (new (text "cpu")) calls).fields
unfolding text_beq
run-maps_example = run-maps (text "cpu") (text "load") calls

abbrev wire_orders : Orders
wire_orders = record { groups = in_order; series = λ t. in_order; dicts = λ t. dict_orders }

-- A point of another table and the batch, the last point being the one that arrives for its series.
abbrev added : List Point
added = record (point (text "a") 1 5) { table = text "mem" } ∷ batch

add_points-Carries_example :
    (pbs : List WriteTableRequestPb) × (PbBuilder.build_request wire_orders
        (add_points empty_request added)
      ≡ some pbs)
    × ∥ ((pb : WriteTableRequestPb) × Memᴰ pb pbs × Carries batch (point (text "a") 1 10) pb) ∥₁
unfolding make_tags_key to_bytes text_beq
add_points-Carries_example =
    add_points-Carries wire_orders added (point (text "a") 1 10) (Memᴰ.tail (Memᴰ.head refl))
      (ground arith, omega arith, omega arith) (λ h. refl, (λ h. cc, (λ h. refl, tt)))
