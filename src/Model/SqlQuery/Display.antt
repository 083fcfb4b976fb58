-- ===== src/Model/SqlQuery/Display.antt =====
-- src/model/sql_query/display.rs: a response as comma-separated text.
use incubator_horaedb_client.Prelude.{List, [], ◌∷◌, ◌++◌, Text, text}
use incubator_horaedb_client.Model.Value.{Value}
use incubator_horaedb_client.Model.SqlQuery.Row.{Row, Column}

abbrev newline : Text
newline = 10 ∷ []

-- `debug` is the derived `Debug` of a value.
module _ (debug : Value → Text) where
  unfoldable pub write_names : List Column → Text
  write_names [] = []
  write_names (c ∷ cs) = c.name ++ (text "," ++ write_names cs)

  unfoldable pub write_values : List Column → Text
  write_values [] = []
  write_values (c ∷ cs) = debug c.value ++ (text "," ++ write_values cs)

  unfoldable pub write_rows : List Row → Text
  unfolding write_values
  write_rows [] = []
  write_rows (row ∷ rows) = write_values row.columns ++ (newline ++ write_rows rows)

  -- `Display for CsvFormatter`: nothing for no rows, else the names of the first row's columns and
  -- then each row.
  unfoldable pub fmt : List Row → Text
  unfolding write_names write_rows
  fmt [] = []
  fmt (first ∷ rows) = write_names first.columns ++ (newline ++ write_rows (first ∷ rows))
