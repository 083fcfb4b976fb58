-- ===== src/Model/SqlQuery/Response/Rows.antt =====
-- The rows that src/model/sql_query/response.rs makes of the record batches of a result.
use incubator_horaedb_client.Prelude.{◌≡◌, refl, some, List, [], ◌∷◌, ◌++◌, map, length, arith}
use incubator_horaedb_client.Errors.{ok}
use incubator_horaedb_client.Model.Value.{Value}
use incubator_horaedb_client.Model.SqlQuery.Row.{Row, RecordBatch}
use incubator_horaedb_client.Model.SqlQuery.Row.Cells.{HasCells, rows_of}
use incubator_horaedb_client.Model.SqlQuery.Row.Fill.{with_arrow_record_batch-rows_of}
use incubator_horaedb_client.Model.SqlQuery.Row.Build.{named_row, build-rows_of}
use incubator_horaedb_client.Model.SqlQuery.Response.{batch_rows, all_rows}

-- The batch has a name and values for each of its columns.
pub record IsTable (batch : RecordBatch) : Type 0 where
  pub cols : List (List Value)
  pub named : length batch.field_names ≡ length batch.columns
  pub has_cells : HasCells batch.num_rows batch.columns cols

abbrev pub table_rows : (batch : RecordBatch) → IsTable batch → List Row
table_rows batch t = map (named_row batch.field_names) (rows_of batch.num_rows t.cols)

abbrev pub AreTables : List RecordBatch → Type 0
AreTables [] = Unit
AreTables (batch ∷ batches) = IsTable batch × AreTables batches

abbrev pub all_table_rows : (batches : List RecordBatch) → AreTables batches → List Row
all_table_rows [] ts = []
all_table_rows (batch ∷ batches) (t, ts) = table_rows batch t ++ all_table_rows batches ts

module _ {X : Type 0} where
  pub batch_rows-table_rows :
      (batch : RecordBatch) (t : IsTable batch)
      → batch_rows {X = X} batch ≡ some (ok (table_rows batch t))
  unfolding batch_rows
  batch_rows-table_rows batch t = ground (
    arith,
    with_arrow_record_batch-rows_of batch t.cols t.has_cells,
    build-rows_of batch t.cols t.named t.has_cells,
  )

  -- If every record batch has a name for each column, and every column has a supported type that is
  -- its array's and as many values as the batch has rows, then no panic and no error occurs and the
  -- rows of the result are the rows of the batches in order, each value under its column's name.
  pub all_rows-all_table_rows :
      (batches : List RecordBatch) (ts : AreTables batches)
      → all_rows {X = X} batches ≡ some (ok (all_table_rows batches ts))
  unfolding all_rows
  all_rows-all_table_rows [] ts = refl
  all_rows-all_table_rows (batch ∷ batches) (t, ts) =
      ground (arith, batch_rows-table_rows batch t, all_rows-all_table_rows batches ts)
