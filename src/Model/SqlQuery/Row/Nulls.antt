-- ===== src/Model/SqlQuery/Row/Nulls.antt =====
-- What becomes of the nulls of a column in src/model/sql_query/row.rs.
use incubator_horaedb_client.Prelude.{
  ℕ, ◌≡◌, ◌≢◌, refl, subst, false, Option, none, some, List, [], ◌∷◌, length, get_elem?,
  get_elem?-set_self, set, ltb, arith, All, Option-cases, Bool-cases, inl, inr,
}
use incubator_horaedb_client.Model.Value.{Value, is_null}
use incubator_horaedb_client.Model.SqlQuery.Row.{
  ArrowType, ArrayRef, filled, fill_rows, fill_column, fill_column_in_row_batch,
}

-- The row has a value other than null in the column.
abbrev pub HasValue : ℕ → List Value → Type 0
HasValue idx row = (v : Value) × (get_elem? row idx ≡ some v) × (is_null v ≡ false)

fill_rows-HasValue :
    {A : Type 0} (f : A → Value) (idx : ℕ) (vs : List A) (rows rows' : List (List Value))
    → ((a : A) → is_null (f a) ≡ false)
    → fill_rows f idx vs rows ≡ some rows'
    → All (HasValue idx) rows'
unfolding fill_rows
fill_rows-HasValue f idx [] [] rows' n h =
    let same : [] ≡ rows' = cc h in subst (All (HasValue idx)) same tt
fill_rows-HasValue f idx (v ∷ vs) [] rows' n h =
    let same : [] ≡ rows' = cc h in subst (All (HasValue idx)) same tt
fill_rows-HasValue f idx [] (row ∷ rows) rows' n h = cc
fill_rows-HasValue f idx (v ∷ vs) (row ∷ rows) rows' n h =
    elim (Bool-cases (ltb idx (length row))) [
      | inr outside ↦ absurd (ground (arith, outside))
      | inl inside ↦ elim (Option-cases (fill_rows f idx vs rows)) [
        | inl stopped ↦ absurd (ground (arith, inside, stopped))
        | inr (rest, found) ↦
            let same : set row idx (f v) ∷ rest ≡ rows' = ground (arith, inside, found) in
            subst (All (HasValue idx)) same (
              (f v, get_elem?-set_self row idx (f v) (ground (arith, inside)), n v),
              fill_rows-HasValue f idx vs rows rest n found,
            )
      ]
    ]

module _ (idx : ℕ) (rows rows' : List (List Value)) where
  fill_column-HasValue :
      {A : Type 0} (o : Option (List A)) (f : A → Value)
      → ((a : A) → is_null (f a) ≡ false)
      → fill_column o f idx rows ≡ filled rows'
      → All (HasValue idx) rows'
  fill_column-HasValue none f n h = cc
  fill_column-HasValue (some vs) f n h = elim (Option-cases (fill_rows f idx vs rows)) [
    | inl stopped ↦ absurd (ground (arith, stopped))
    | inr (rest, found) ↦ fill_rows-HasValue f idx vs rows rows' n (ground (arith, found))
  ]

  -- After a column of a type other than Null has been filled in, no row has a null in it; every row
  -- has a value there.
  pub fill_column_in_row_batch-HasValue :
      (a : ArrayRef) (ty : ArrowType)
      → ty ≢ ArrowType.null
      → fill_column_in_row_batch rows idx a ty ≡ filled rows'
      → All (HasValue idx) rows'
  unfolding fill_column_in_row_batch is_null
  fill_column_in_row_batch-HasValue a ArrowType.null t h = absurd (t refl)
  fill_column_in_row_batch-HasValue a ArrowType.boolean t h =
      fill_column-HasValue a.boolean_array Value.boolean (λ v. refl) h
  fill_column_in_row_batch-HasValue a ArrowType.int8 t h =
      fill_column-HasValue a.int8_array Value.int8 (λ v. refl) h
  fill_column_in_row_batch-HasValue a ArrowType.int16 t h =
      fill_column-HasValue a.int16_array Value.int16 (λ v. refl) h
  fill_column_in_row_batch-HasValue a ArrowType.int32 t h =
      fill_column-HasValue a.int32_array Value.int32 (λ v. refl) h
  fill_column_in_row_batch-HasValue a ArrowType.int64 t h =
      fill_column-HasValue a.int64_array Value.int64 (λ v. refl) h
  fill_column_in_row_batch-HasValue a ArrowType.uint8 t h =
      fill_column-HasValue a.uint8_array Value.uint8 (λ v. refl) h
  fill_column_in_row_batch-HasValue a ArrowType.uint16 t h =
      fill_column-HasValue a.uint16_array Value.uint16 (λ v. refl) h
  fill_column_in_row_batch-HasValue a ArrowType.uint32 t h =
      fill_column-HasValue a.uint32_array Value.uint32 (λ v. refl) h
  fill_column_in_row_batch-HasValue a ArrowType.uint64 t h =
      fill_column-HasValue a.uint64_array Value.uint64 (λ v. refl) h
  fill_column_in_row_batch-HasValue a ArrowType.float32 t h =
      fill_column-HasValue a.float32_array Value.float (λ v. refl) h
  fill_column_in_row_batch-HasValue a ArrowType.float64 t h =
      fill_column-HasValue a.float64_array Value.double (λ v. refl) h
  fill_column_in_row_batch-HasValue a ArrowType.utf8 t h =
      fill_column-HasValue a.string_array Value.string (λ v. refl) h
  fill_column_in_row_batch-HasValue a ArrowType.large_utf8 t h =
      fill_column-HasValue a.string_array Value.string (λ v. refl) h
  fill_column_in_row_batch-HasValue a ArrowType.binary t h =
      fill_column-HasValue a.binary_array Value.varbinary (λ v. refl) h
  fill_column_in_row_batch-HasValue a ArrowType.large_binary t h =
      fill_column-HasValue a.binary_array Value.varbinary (λ v. refl) h
  fill_column_in_row_batch-HasValue a ArrowType.timestamp_millisecond t h =
      fill_column-HasValue a.timestamp_millisecond_array Value.timestamp (λ v. refl) h
  fill_column_in_row_batch-HasValue a ArrowType.time32_millisecond t h =
      fill_column-HasValue a.time32_millisecond_array Value.timestamp (λ v. refl) h
  fill_column_in_row_batch-HasValue a (ArrowType.dictionary ArrowType.int32 ArrowType.utf8) t h =
      fill_column-HasValue a.string_dictionary_array Value.string (λ v. refl) h
  fill_column_in_row_batch-HasValue a _ t h = cc
