-- ===== src/Model/SqlQuery/Response.antt =====
-- src/model/sql_query/response.rs: the response of a query, decoded from its protobuf form.
pub mod Rows
pub mod Collect
pub mod Read
pub mod Decoded
pub mod Panics
use incubator_horaedb_client.Prelude.{ℕ, Option, none, some, List, [], ◌∷◌, ◌++◌, text}
use incubator_horaedb_client.Errors.{
  Foreign, good, bad, Result, ok, err, unknown, build_rows, decode_arrow_payload, ◌>>=◌,
}
use incubator_horaedb_client.RpcClient.{
  Compression, uncompressed, zstd, ArrowPayload, OutputPb, affected_rows, arrow, SqlQueryResponsePb,
}
use incubator_horaedb_client.Model.SqlQuery.Row.{
  Row, RecordBatch, filled, unsupported_type, panicked, with_arrow_record_batch, build,
}

pub record Response : Type 0 where
  pub affected_rows : ℕ
  pub rows : List Row

-- What the code uses of the crates zstd and arrow: decompression, and the reading of a byte batch as
-- a stream of record batches, whose header may be bad and each of whose batches may be bad.
pub record Decoders (X : Type 0) : Type 0 where
  pub decode_all : List ℕ → Foreign X (List ℕ)
  pub read_stream : List ℕ → Foreign X (List (Foreign X RecordBatch))

-- `into_iter().flatten().collect()`.
unfoldable pub flatten : {A : Type 0} → List (List A) → List A
flatten [] = []
flatten (xs ∷ xss) = xs ++ flatten xss

module _ {X : Type 0} where
  -- `map_err(|e| Error::DecodeArrowPayload(Box::new(e)))`.
  abbrev pub boxed : {A : Type 0} → Foreign X A → Result X A
  boxed (good a) = ok a
  boxed (bad x) = err (decode_arrow_payload x)

  -- `map(f).collect::<Result<Vec<_>>>()`, which ends at the first error.
  unfoldable pub collect : {A B : Type 0} → (A → Result X B) → List A → Result X (List B)
  collect f [] = ok []
  collect f (a ∷ as') = do b ← f a; bs ← collect f as'; ok (b ∷ bs)

  abbrev pub unzip : Decoders X → Compression → List ℕ → Result X (List ℕ)
  unzip d uncompressed bytes = ok bytes
  unzip d zstd bytes = boxed (d.decode_all bytes)

  abbrev pub read_batches : Decoders X → List ℕ → Result X (List RecordBatch)
  read_batches d bytes = do stream ← boxed (d.read_stream bytes); collect boxed stream

  -- The function `decode_arrow_payload`.
  unfoldable pub decode_payload : Decoders X → ArrowPayload → Result X (List RecordBatch)
  unfolding collect flatten
  decode_payload d payload = do
    unzipped ← collect (unzip d payload.compression) payload.record_batches
    groups ← collect (read_batches d) unzipped
    ok (flatten groups)

  -- The rows of one record batch; `none` is a panic.
  unfoldable pub batch_rows : RecordBatch → Option (Result X (List Row))
  unfolding with_arrow_record_batch build
  batch_rows batch = elim (with_arrow_record_batch batch) [
    | panicked ↦ none
    | unsupported_type e ↦ some (err (build_rows e))
    | filled rows ↦ elim (build batch.field_names rows) [
      | none ↦ none
      | some built ↦ some (ok built)
    ]
  ]

  -- The rows of all batches, up to the first error or panic.
  unfoldable pub all_rows : List RecordBatch → Option (Result X (List Row))
  unfolding batch_rows
  all_rows [] = some (ok [])
  all_rows (batch ∷ batches) = elim (batch_rows batch) [
    | none ↦ none
    | some (err e) ↦ some (err e)
    | some (ok rows) ↦ elim (all_rows batches) [
      | none ↦ none
      | some (err e) ↦ some (err e)
      | some (ok rest) ↦ some (ok (rows ++ rest))
    ]
  ]

  abbrev pub rows_response : Option (Result X (List Row)) → Option (Result X Response)
  rows_response none = none
  rows_response (some (err e)) = some (err e)
  rows_response (some (ok rows)) = some (ok (record { affected_rows = 0; rows = rows }))

  abbrev pub arrow_response : Result X (List RecordBatch) → Option (Result X Response)
  arrow_response (err e) = some (err e)
  arrow_response (ok batches) = rows_response (all_rows batches)

  -- `TryFrom<OutputPb> for Output` and the choice of the response's fields after it.
  abbrev pub output_response : Decoders X → OutputPb → Option (Result X Response)
  output_response d (affected_rows n) = some (ok (record { affected_rows = n; rows = [] }))
  output_response d (arrow payload) = arrow_response (decode_payload d payload)

  -- `TryFrom<SqlQueryResponse> for Response`; `none` is a panic.
  unfoldable pub try_from : Decoders X → SqlQueryResponsePb → Option (Result X Response)
  unfolding decode_payload all_rows
  try_from d pb = elim pb.output [
    | none ↦ some (err (unknown (text "output is empty in sql query response")))
    | some output ↦ output_response d output
  ]
