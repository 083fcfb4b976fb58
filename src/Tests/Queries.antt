-- ===== src/Tests/Queries.antt =====
-- Tests of src/model/sql_query/: rows from record batches, and responses from payloads.
use incubator_horaedb_client.Prelude.{
  is_empty, if◌then◌else◌, ◌↔◌, ◌≡◌, refl, none, some, List, [], ◌∷◌, Text, text, All,
}
use incubator_horaedb_client.Prelude.Int.{ℤ, pos}
use incubator_horaedb_client.Errors.{Error, decode_arrow_payload, good, bad, ok, err}
use incubator_horaedb_client.RpcClient.{zstd, ArrowPayload, arrow}
use incubator_horaedb_client.Model.Value.{Value}
use incubator_horaedb_client.Model.Value.Value.{int32, string, null}
use incubator_horaedb_client.Model.SqlQuery.Row.{
  ArrowType, ArrayRef, RecordBatch, Row, panicked, with_arrow_record_batch,
  fill_column_in_row_batch,
}
use incubator_horaedb_client.Model.SqlQuery.Row.Nulls.{HasValue, fill_column_in_row_batch-HasValue}
use incubator_horaedb_client.Model.SqlQuery.Response.{Decoders, flatten, decode_payload, try_from}
use incubator_horaedb_client.Model.SqlQuery.Response.Decoded.{
  IsDecoded, CannotDecode, decode_payload_lem, try_from-all_table_rows,
}
use incubator_horaedb_client.Model.SqlQuery.Response.Rows.{IsTable}

abbrev pub no_array : ArrowType → ArrayRef
no_array ty = record {
  data_type = ty;
  printed_type = text "?";
  boolean_array = none;
  int8_array = none;
  int16_array = none;
  int32_array = none;
  int64_array = none;
  uint8_array = none;
  uint16_array = none;
  uint32_array = none;
  uint64_array = none;
  float32_array = none;
  float64_array = none;
  string_array = none;
  binary_array = none;
  timestamp_millisecond_array = none;
  time32_millisecond_array = none;
  string_dictionary_array = none;
}

abbrev numbers : ArrayRef
numbers = record (no_array ArrowType.int32) { int32_array = some (pos 7 ∷ pos 0 ∷ []) }

abbrev names : ArrayRef
names = record (no_array ArrowType.utf8) { string_array = some (text "a" ∷ text "b" ∷ []) }

abbrev batch : RecordBatch
batch = record {
  field_names = text "n" ∷ text "s" ∷ text "z" ∷ [];
  columns = numbers ∷ names ∷ no_array ArrowType.null ∷ [];
  num_rows = 2;
}

abbrev columns : List (List Value)
columns =
    (int32 (pos 7) ∷ int32 (pos 0) ∷ [])
    ∷ (string (text "a") ∷ string (text "b") ∷ [])
    ∷ (null ∷ null ∷ [])
    ∷ []

fill_column_in_row_batch-HasValue_example :
    All (HasValue 0) ((int32 (pos 7) ∷ []) ∷ (int32 (pos 0) ∷ []) ∷ [])
unfolding fill_column_in_row_batch
fill_column_in_row_batch-HasValue_example =
    fill_column_in_row_batch-HasValue 0 ((null ∷ []) ∷ (null ∷ []) ∷ [])
      ((int32 (pos 7) ∷ []) ∷ (int32 (pos 0) ∷ []) ∷ []) numbers ArrowType.int32 (λ e. cc) refl

abbrev table : IsTable batch
table = record {
  cols = columns;
  named = refl;
  has_cells = (refl, refl, (refl, refl, (refl, refl, tt)));
}

abbrev row : ℤ → Text → Row
row n s = record {
  columns =
      record { name = text "n"; value = int32 n }
      ∷ record { name = text "s"; value = string s }
      ∷ record { name = text "z"; value = null }
      ∷ [];
}

-- Decoders of payloads whose streams hold one record batch each.
abbrev one_batch : Decoders Text
one_batch = record {
  decode_all = λ bytes. if is_empty bytes then bad (text "short") else good bytes;
  read_stream = λ bytes. good (good batch ∷ []);
}

abbrev payload : ArrowPayload
payload = record { record_batches = (1 ∷ []) ∷ (2 ∷ []) ∷ []; compression = zstd }

try_from-all_table_rows_example :
    try_from one_batch (record { header = none; output = some (arrow payload) })
    ≡ some (
        ok (record {
          affected_rows = 0;
          rows =
              row (pos 7) (text "a")
              ∷ row (pos 0) (text "b")
              ∷ row (pos 7) (text "a")
              ∷ row (pos 0) (text "b")
              ∷ [];
        }))
unfolding flatten
try_from-all_table_rows_example =
    try_from-all_table_rows one_batch (record { header = none; output = some (arrow payload) })
      payload (batch ∷ batch ∷ []) (table, (table, tt)) refl
      (
        payload.record_batches,
        (refl, (refl, tt)),
        (
          (batch ∷ []) ∷ (batch ∷ []) ∷ [],
          ((good batch ∷ [], refl, (refl, tt)), ((good batch ∷ [], refl, (refl, tt)), tt)),
          refl,
        ),
      )

decode_payload_lem_example :
    ((batches : List RecordBatch)
      → (decode_payload one_batch payload ≡ ok batches) ↔ IsDecoded one_batch payload batches)
    × ((x : Text)
        → (decode_payload one_batch payload ≡ err (decode_arrow_payload x))
          ↔ CannotDecode one_batch payload x)
    × ((e : Error Text)
        → decode_payload one_batch payload ≡ err e
        → (x : Text) × (e ≡ decode_arrow_payload x))
decode_payload_lem_example = decode_payload_lem one_batch payload

-- A `LargeUtf8` column stands in a `LargeStringArray`, so its downcast to a `StringArray` fails.
large_utf8_panics :
    with_arrow_record_batch (record {
      field_names = text "s" ∷ [];
      columns = no_array ArrowType.large_utf8 ∷ [];
      num_rows = 1;
    })
    ≡ panicked
unfolding with_arrow_record_batch
large_utf8_panics = refl
