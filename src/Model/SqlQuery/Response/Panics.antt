-- ===== src/Model/SqlQuery/Response/Panics.antt =====
-- When `Response::try_from` of src/model/sql_query/response.rs panics.
use incubator_horaedb_client.Prelude.{
  ℕ, ◌≡◌, ◌↔◌, refl, subst, inl, inr, Option, none, some, Text, List, [], ◌∷◌, ◌++◌, length, All,
  All-append, arith, Option-cases,
}
use incubator_horaedb_client.Errors.{Foreign, good, Result, ok, err, build_rows}
use incubator_horaedb_client.RpcClient.{ArrowPayload, affected_rows, arrow, SqlQueryResponsePb}
use incubator_horaedb_client.Model.SqlQuery.Row.{Row, RecordBatch}
use incubator_horaedb_client.Model.SqlQuery.Row.Support.{
  Support, supported, large, other_type, else_support, first_support, AreArrays,
}
use incubator_horaedb_client.Model.SqlQuery.Row.Outcomes.{FillsBatch, batch-FillsBatch}
use incubator_horaedb_client.Model.SqlQuery.Response.{
  Decoders, flatten, decode_payload, batch_rows, all_rows, rows_response, try_from,
}
use incubator_horaedb_client.Model.SqlQuery.Response.Rows.{
  IsTable, table_rows, batch_rows-table_rows,
}
use incubator_horaedb_client.Model.SqlQuery.Response.Read.{IsGood, IsRead}
use incubator_horaedb_client.Model.SqlQuery.Response.Collect.{Result-cases, Each}
use incubator_horaedb_client.Model.SqlQuery.Response.Decoded.{IsDecoded, decode_payload-ok_iff}

-- The support of the first column of the record batches, in order, that cannot be filled in, if
-- there is one.
abbrev pub batches_support : List RecordBatch → Support
batches_support [] = supported
batches_support (batch ∷ batches) =
    else_support (first_support batch.columns) (batches_support batches)

-- What the crate arrow documents of a record batch: its schema names each column, and each column is
-- an array of its type with a slot for each row.
pub record IsArrowBatch (batch : RecordBatch) : Type 0 where
  pub named : length batch.field_names ≡ length batch.columns
  pub arrays : AreArrays batch.num_rows batch.columns

-- The record batches that a stream holds.
abbrev pub AllGood : {X : Type 0} → (RecordBatch → Type 0) → List (Foreign X RecordBatch) → Type 0
AllGood P stream = All (λ found. (batch : RecordBatch) → found ≡ good batch → P batch) stream

module _ (X : Type 0) where
  -- What the rows of record batches come to.
  abbrev Comes : List RecordBatch → Support → Type 0
  Comes batches supported = (rows : List Row) × (all_rows {X = X} batches ≡ some (ok rows))
  Comes batches large = all_rows {X = X} batches ≡ none
  Comes batches other_type = (e : Text) × (all_rows {X = X} batches ≡ some (err (build_rows e)))

  all_rows-Comes :
      (batches : List RecordBatch)
      → All IsArrowBatch batches
      → Comes batches (batches_support batches)
  unfolding all_rows batch_rows
  all_rows-Comes [] h = ([], refl)
  all_rows-Comes (batch ∷ batches) (here, h) =
      go (first_support batch.columns) (batch-FillsBatch batch here.arrays)
        (batches_support batches) (all_rows-Comes batches h)
    where
      go :
          (s : Support)
          → FillsBatch batch s
          → (s' : Support) → Comes batches s'
          → Comes (batch ∷ batches) (else_support s s')
      go supported (cols, has) supported (rows, later) =
          let t : IsTable batch = record { cols = cols; named = here.named; has_cells = has } in
          (table_rows batch t ++ rows, ground (arith, batch_rows-table_rows {X = X} batch t, later))
      go supported (cols, has) large later =
          let t : IsTable batch = record { cols = cols; named = here.named; has_cells = has } in
          ground (arith, batch_rows-table_rows {X = X} batch t, later)
      go supported (cols, has) other_type (e, later) =
          let t : IsTable batch = record { cols = cols; named = here.named; has_cells = has } in
          (e, ground (arith, batch_rows-table_rows {X = X} batch t, later))
      go large panics s' later = ground (arith, panics)
      go other_type (e, refuses) s' later = (e, ground (arith, refuses))

  large_of-Comes :
      (batches : List RecordBatch) (s : Support)
      → Comes batches s
      → all_rows {X = X} batches ≡ none
      → s ≡ large
  large_of-Comes batches supported (rows, is) h = cc
  large_of-Comes batches large is h = refl
  large_of-Comes batches other_type (e, is) h = cc

rows_panic :
    {X : Type 0} (rows : Option (Result X (List Row))) → rows_response rows ≡ none → rows ≡ none
rows_panic none h = refl
rows_panic (some (err e)) h = cc
rows_panic (some (ok rows)) h = cc

module _ {X : Type 0} (d : Decoders X) where
  -- The streams that are read hold record batches as the crate arrow documents them.
  abbrev pub IsArrow : Type 0
  IsArrow =
      (bytes : List ℕ) (stream : List (Foreign X RecordBatch))
      → d.read_stream bytes ≡ good stream
      → AllGood IsArrowBatch stream

  module _ (P : RecordBatch → Type 0)
      (reads : (bytes : List ℕ) (stream : List (Foreign X RecordBatch))
        → d.read_stream bytes ≡ good stream
        → AllGood P stream) where
    stream_all :
        (stream : List (Foreign X RecordBatch)) (batches : List RecordBatch)
        → AllGood P stream
        → Each (IsGood d) stream batches
        → All P batches
    stream_all [] [] h k = tt
    stream_all [] (batch ∷ batches) h k = elim k [ ]
    stream_all (found ∷ stream) [] h k = elim k [ ]
    stream_all (found ∷ stream) (batch ∷ batches) (here, h) (is, k) =
        (here batch is, stream_all stream batches h k)

    flatten_all :
        (plain : List (List ℕ)) (groups : List (List RecordBatch))
        → Each (IsRead d) plain groups
        → All P (flatten groups)
    unfolding flatten
    flatten_all [] [] k = tt
    flatten_all [] (group ∷ groups) k = elim k [ ]
    flatten_all (bytes ∷ plain) [] k = elim k [ ]
    flatten_all (bytes ∷ plain) (group ∷ groups) ((stream, opened, all), k) =
        All-append P group (flatten groups)
          (stream_all stream group (reads bytes stream opened) all) (flatten_all plain groups k)

    decoded_all :
        (payload : ArrowPayload) (batches : List RecordBatch)
        → IsDecoded d payload batches
        → All P batches
    decoded_all payload batches (plain, unzipped, (groups, read, same)) =
        subst (All P) same (flatten_all plain groups read)

  -- The output is a payload that is decoded to record batches of which the first column that cannot
  -- be filled in has the type LargeUtf8 or LargeBinary.
  abbrev pub IsLarge : SqlQueryResponsePb → Type 0
  IsLarge pb =
      (payload : ArrowPayload) × (batches : List RecordBatch) × (pb.output ≡ some (arrow payload))
      × IsDecoded d payload batches
      × (batches_support batches ≡ large)

  -- If the record batches are as the crate arrow documents them, decoding a response panics exactly
  -- when its output is a payload that is decoded to record batches of which the first column that
  -- cannot be filled in has the type LargeUtf8 or LargeBinary.
  pub try_from-none_iff : (pb : SqlQueryResponsePb) → IsArrow → (try_from d pb ≡ none) ↔ IsLarge pb
  unfolding try_from
  try_from-none_iff pb documented = (
    λ panic. elim (Option-cases pb.output) [
      | inl empty ↦ absurd (ground (arith, empty))
      | inr (affected_rows n, has) ↦ absurd (ground (arith, has))
      | inr (arrow payload, has) ↦ elim (Result-cases (decode_payload d payload)) [
        | inl (e, failed) ↦ absurd (ground (arith, has, failed))
        | inr (batches, done) ↦
            let decoded = (decode_payload-ok_iff d payload batches).0 done in
            (
              payload,
              batches,
              has,
              decoded,
              large_of-Comes X batches (batches_support batches)
                  (all_rows-Comes X batches
                    (decoded_all IsArrowBatch documented payload batches decoded))
                  (rows_panic (all_rows batches) (ground (arith, has, done))),
            )
      ]
    ],
    λ (payload, batches, has, decoded, is).
        let comes =
          all_rows-Comes X batches (decoded_all IsArrowBatch documented payload batches decoded) in
        let panics = subst (Comes X batches) is comes in
        ground (arith, has, (decode_payload-ok_iff d payload batches).1 decoded, panics),
  )
