-- ===== src/Model/SqlQuery/Response/Decoded.antt =====
-- What `decode_arrow_payload` of src/model/sql_query/response.rs makes of a payload, and when it fails.
use incubator_horaedb_client.Prelude.{some, ℕ, ◌≡◌, ◌↔◌, ◌⊎◌, ap, inl, inr, List, arith}
use incubator_horaedb_client.Errors.{Error, decode_arrow_payload, Result, ok, err, ◌>>=◌}
use incubator_horaedb_client.RpcClient.{ArrowPayload, arrow, SqlQueryResponsePb}
use incubator_horaedb_client.Model.SqlQuery.Response.Rows.{
  AreTables, all_table_rows, all_rows-all_table_rows,
}
use incubator_horaedb_client.Model.SqlQuery.Row.{RecordBatch}
use incubator_horaedb_client.Model.SqlQuery.Response.{
  Decoders, collect, flatten, unzip, read_batches, decode_payload, try_from,
}
use incubator_horaedb_client.Model.SqlQuery.Response.Read.{
  IsUnzipped, CannotUnzip, IsRead, CannotRead, unzip-ok_iff, unzip-err_iff, read_batches-ok_iff,
  read_batches-err_iff, unzip_shape, read_shape,
}
use incubator_horaedb_client.Model.SqlQuery.Response.Collect.{
  Each, First, bind-ok_iff, bind-err_iff, err_of-collect, collect-ok_iff, collect-err_iff,
}

module _ {X : Type 0} (d : Decoders X) (payload : ArrowPayload) where
  -- Each byte batch is unzipped and read, and the record batches follow one another.
  abbrev pub IsDecoded : List RecordBatch → Type 0
  IsDecoded batches =
      (plain : List (List ℕ)) × Each (IsUnzipped d payload.compression) payload.record_batches plain
      × ((groups : List (List RecordBatch)) × Each (IsRead d) plain groups
          × (flatten groups ≡ batches))

  -- The first byte batch that cannot be unzipped, or, when all can, the first that cannot be read.
  abbrev pub CannotDecode : X → Type 0
  CannotDecode x =
      First (IsUnzipped d payload.compression) (CannotUnzip d payload.compression x)
        payload.record_batches
      ⊎ ((plain : List (List ℕ)) × Each (IsUnzipped d payload.compression) payload.record_batches
            plain
          × First (IsRead d) (CannotRead d x) plain)

  abbrev unzipped : Result X (List (List ℕ))
  unzipped = collect (unzip d payload.compression) payload.record_batches

  abbrev joined : List (List ℕ) → Result X (List RecordBatch)
  joined plain = do groups ← collect (read_batches d) plain; ok (flatten groups)

  all-IsUnzipped_iff :
      (plain : List (List ℕ))
      → (unzipped ≡ ok plain) ↔ Each (IsUnzipped d payload.compression) payload.record_batches plain
  all-IsUnzipped_iff =
      collect-ok_iff (IsUnzipped d payload.compression) (unzip d payload.compression)
        (unzip-ok_iff d payload.compression) payload.record_batches

  all-IsRead_iff :
      (plain : List (List ℕ)) (groups : List (List RecordBatch))
      → (collect (read_batches d) plain ≡ ok groups) ↔ Each (IsRead d) plain groups
  all-IsRead_iff = collect-ok_iff (IsRead d) (read_batches d) (read_batches-ok_iff d)

  pub decode_payload-ok_iff :
      (batches : List RecordBatch) → (decode_payload d payload ≡ ok batches) ↔ IsDecoded batches
  unfolding decode_payload
  decode_payload-ok_iff batches =
      let bind = bind-ok_iff joined unzipped batches in
      let bind' = λ (plain : List (List ℕ)).
        bind-ok_iff (λ groups. ok (flatten groups)) (collect (read_batches d) plain) batches in
      (
        λ h.
            let (plain, first, then) = bind.0 h in
            let (groups, second, same) = (bind' plain).0 then in
            (
              plain,
              (all-IsUnzipped_iff plain).0 first,
              (groups, (all-IsRead_iff plain groups).0 second, ground (arith, same)),
            ),
        λ (plain, first, (groups, second, same)). bind.1 (
          plain,
          (all-IsUnzipped_iff plain).1 first,
          (bind' plain).1 (groups, (all-IsRead_iff plain groups).1 second, ap ok same),
        ),
      )

  decode_payload-err_iff :
      (x : X) → (decode_payload d payload ≡ err (decode_arrow_payload x)) ↔ CannotDecode x
  unfolding decode_payload
  decode_payload-err_iff x =
      let e = decode_arrow_payload x in
      let bind = bind-err_iff joined unzipped e in
      let bind' = λ (plain : List (List ℕ)).
        bind-err_iff (λ groups. ok (flatten groups)) (collect (read_batches d) plain) e in
      let first_iff =
        collect-err_iff (IsUnzipped d payload.compression) (unzip d payload.compression)
          (unzip-ok_iff d payload.compression) e (CannotUnzip d payload.compression x)
          (unzip-err_iff d payload.compression x) payload.record_batches in
      let second_iff = λ (plain : List (List ℕ)).
        collect-err_iff (IsRead d) (read_batches d) (read_batches-ok_iff d) e (CannotRead d x)
          (read_batches-err_iff d x) plain in
      (
        λ h. elim (bind.0 h) [
          | inl refused ↦ inl (first_iff.0 refused)
          | inr (plain, first, then) ↦ inr (
            plain,
            (all-IsUnzipped_iff plain).0 first,
            elim ((bind' plain).0 then) [
              | inl refused ↦ (second_iff plain).0 refused
              | inr (groups, read, never) ↦ absurd cc
            ],
          )
        ],
        λ h. bind.1 (elim h [
          | inl refused ↦ inl (first_iff.1 refused)
          | inr (plain, first, refused) ↦ inr (
            plain,
            (all-IsUnzipped_iff plain).1 first,
            (bind' plain).1 (inl ((second_iff plain).1 refused)),
          )
        ]),
      )

  decode_payload-err_shape :
      (e : Error X) → decode_payload d payload ≡ err e → (x : X) × (e ≡ decode_arrow_payload x)
  unfolding decode_payload
  decode_payload-err_shape e h = elim ((bind-err_iff joined unzipped e).0 h) [
    | inl refused ↦
        let (bytes, at) =
          err_of-collect (unzip d payload.compression) payload.record_batches e refused in
        unzip_shape d payload.compression bytes e at
    | inr (plain, first, then) ↦
        elim ((bind-err_iff (λ groups. ok (flatten groups)) (collect (read_batches d) plain) e).0
          then) [
            | inl refused ↦
                let (bytes, at) = err_of-collect (read_batches d) plain e refused in
                read_shape d bytes e at
            | inr (groups, read, never) ↦ absurd cc
          ]
  ]

  -- A payload is decoded to the record batches of its byte batches, in order, exactly when each byte
  -- batch can be unzipped, if the payload is compressed, and is a stream without a bad record batch;
  -- otherwise the error is the first that unzipping the byte batches has, or, when all can be
  -- unzipped, the first that the streams have, wrapped as an error of decoding, and there are no
  -- other errors.
  pub decode_payload_lem :
      ((batches : List RecordBatch) → (decode_payload d payload ≡ ok batches) ↔ IsDecoded batches)
      × ((x : X) → (decode_payload d payload ≡ err (decode_arrow_payload x)) ↔ CannotDecode x)
      × ((e : Error X) → decode_payload d payload ≡ err e → (x : X) × (e ≡ decode_arrow_payload x))
  decode_payload_lem = (decode_payload-ok_iff, decode_payload-err_iff, decode_payload-err_shape)

-- If the output of a response is a payload whose byte batches can be unzipped and are streams without
-- a bad record batch, and every record batch has a name for each column, each of which has a
-- supported type that is its array's and as many values as the batch has rows, then the response is
-- decoded without a panic to the rows of the record batches in order, each value under its column's
-- name, and affects no rows.
pub try_from-all_table_rows :
    {X : Type 0} (d : Decoders X) (pb : SqlQueryResponsePb) (payload : ArrowPayload)
    (batches : List RecordBatch) (ts : AreTables batches)
    → pb.output ≡ some (arrow payload)
    → IsDecoded d payload batches
    → try_from d pb ≡ some (ok (record { affected_rows = 0; rows = all_table_rows batches ts }))
unfolding try_from
try_from-all_table_rows {X = X} d pb payload batches ts has decoded = ground (
  arith,
  has,
  (decode_payload-ok_iff d payload batches).1 decoded,
  all_rows-all_table_rows {X = X} batches ts,
)
