-- ===== src/Model/SqlQuery/Response/Read.antt =====
-- What `decode_arrow_payload` of src/model/sql_query/response.rs does with one byte batch.
use incubator_horaedb_client.Prelude.{ℕ, ◌≡◌, ◌↔◌, ◌⊎◌, inl, inr, List, arith}
use incubator_horaedb_client.Errors.{Error, decode_arrow_payload, Foreign, good, bad, ok, err}
use incubator_horaedb_client.RpcClient.{Compression, uncompressed, zstd}
use incubator_horaedb_client.Model.SqlQuery.Row.{RecordBatch}
use incubator_horaedb_client.Model.SqlQuery.Response.{Decoders, boxed, collect, unzip, read_batches}
use incubator_horaedb_client.Model.SqlQuery.Response.Collect.{
  Each, First, bind-ok_iff, bind-err_iff, err_of-collect, collect-ok_iff, collect-err_iff,
}

module _ {X : Type 0} (d : Decoders X) where
  abbrev pub IsUnzipped : Compression → List ℕ → List ℕ → Type 0
  IsUnzipped uncompressed bytes plain = bytes ≡ plain
  IsUnzipped zstd bytes plain = d.decode_all bytes ≡ good plain

  abbrev pub CannotUnzip : Compression → X → List ℕ → Type 0
  CannotUnzip uncompressed x bytes = ⊥
  CannotUnzip zstd x bytes = d.decode_all bytes ≡ bad x

  abbrev pub IsGood : Foreign X RecordBatch → RecordBatch → Type 0
  IsGood found batch = found ≡ good batch

  -- The bytes are a stream of these record batches.
  abbrev pub IsRead : List ℕ → List RecordBatch → Type 0
  IsRead bytes batches =
      (stream : List (Foreign X RecordBatch)) × (d.read_stream bytes ≡ good stream)
      × Each IsGood stream batches

  -- The header of the stream is bad, or the first record batch that is bad is so with this error.
  abbrev pub CannotRead : X → List ℕ → Type 0
  CannotRead x bytes =
      (d.read_stream bytes ≡ bad x)
      ⊎ ((stream : List (Foreign X RecordBatch)) × (d.read_stream bytes ≡ good stream)
          × First IsGood (λ found. found ≡ bad x) stream)

  boxed-ok_iff :
      {A : Type 0} (found : Foreign X A) (a : A) → (boxed found ≡ ok a) ↔ (found ≡ good a)
  boxed-ok_iff (good b) a = (λ h. ground (arith, h), λ h. ground (arith, h))
  boxed-ok_iff (bad x) a = (λ h. cc, λ h. cc)

  boxed-err_iff :
      {A : Type 0} (x : X) (found : Foreign X A)
      → (boxed found ≡ err (decode_arrow_payload x)) ↔ (found ≡ bad x)
  boxed-err_iff x (good b) = (λ h. cc, λ h. cc)
  boxed-err_iff x (bad y) = (λ h. ground (arith, h), λ h. ground (arith, h))

  err_of-boxed :
      {A : Type 0} (found : Foreign X A) (e : Error X)
      → boxed found ≡ err e
      → (x : X) × (e ≡ decode_arrow_payload x)
  err_of-boxed (good a) e h = cc
  err_of-boxed (bad x) e h = (x, ground (arith, h))

  pub unzip-ok_iff :
      (c : Compression) (bytes plain : List ℕ)
      → (unzip d c bytes ≡ ok plain) ↔ IsUnzipped c bytes plain
  unzip-ok_iff uncompressed bytes plain = (λ h. ground (arith, h), λ h. ground (arith, h))
  unzip-ok_iff zstd bytes plain = boxed-ok_iff (d.decode_all bytes) plain

  pub unzip-err_iff :
      (c : Compression) (x : X) (bytes : List ℕ)
      → (unzip d c bytes ≡ err (decode_arrow_payload x)) ↔ CannotUnzip c x bytes
  unzip-err_iff uncompressed x bytes = (λ h. cc, λ h. elim h [ ])
  unzip-err_iff zstd x bytes = boxed-err_iff x (d.decode_all bytes)

  pub read_batches-ok_iff :
      (bytes : List ℕ) (batches : List RecordBatch)
      → (read_batches d bytes ≡ ok batches) ↔ IsRead bytes batches
  read_batches-ok_iff bytes batches =
      let bind = bind-ok_iff (collect boxed) (boxed (d.read_stream bytes)) batches in
      (
        λ h.
            let (stream, opened, all) = bind.0 h in
            (
              stream,
              (boxed-ok_iff (d.read_stream bytes) stream).0 opened,
              (collect-ok_iff IsGood boxed boxed-ok_iff stream batches).0 all,
            ),
        λ (stream, opened, all). bind.1 (
          stream,
          (boxed-ok_iff (d.read_stream bytes) stream).1 opened,
          (collect-ok_iff IsGood boxed boxed-ok_iff stream batches).1 all,
        ),
      )

  pub read_batches-err_iff :
      (x : X) (bytes : List ℕ)
      → (read_batches d bytes ≡ err (decode_arrow_payload x)) ↔ CannotRead x bytes
  read_batches-err_iff x bytes =
      let bind =
        bind-err_iff (collect boxed) (boxed (d.read_stream bytes)) (decode_arrow_payload x) in
      let faulty = λ (stream : List (Foreign X RecordBatch)).
        collect-err_iff IsGood boxed boxed-ok_iff (decode_arrow_payload x) (λ found. found ≡ bad x)
          (boxed-err_iff x) stream in
      (
        λ h. elim (bind.0 h) [
          | inl refused ↦ inl ((boxed-err_iff x (d.read_stream bytes)).0 refused)
          | inr (stream, opened, later) ↦ inr (
            stream,
            (boxed-ok_iff (d.read_stream bytes) stream).0 opened,
            (faulty stream).0 later,
          )
        ],
        λ h. bind.1 (elim h [
          | inl refused ↦ inl ((boxed-err_iff x (d.read_stream bytes)).1 refused)
          | inr (stream, opened, later) ↦ inr (
            stream,
            (boxed-ok_iff (d.read_stream bytes) stream).1 opened,
            (faulty stream).1 later,
          )
        ]),
      )

  pub unzip_shape :
      (c : Compression) (bytes : List ℕ) (e : Error X)
      → unzip d c bytes ≡ err e
      → (x : X) × (e ≡ decode_arrow_payload x)
  unzip_shape uncompressed bytes e h = cc
  unzip_shape zstd bytes e h = err_of-boxed (d.decode_all bytes) e h

  pub read_shape :
      (bytes : List ℕ) (e : Error X)
      → read_batches d bytes ≡ err e
      → (x : X) × (e ≡ decode_arrow_payload x)
  read_shape bytes e h = elim ((bind-err_iff (collect boxed) (boxed (d.read_stream bytes)) e).0 h) [
    | inl refused ↦ err_of-boxed (d.read_stream bytes) e refused
    | inr (stream, opened, later) ↦
        let (found, at) = err_of-collect boxed stream e later in err_of-boxed found e at
  ]
