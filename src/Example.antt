-- ===== src/Example.antt =====
-- examples/read_write.rs: a program that makes a table, writes two points, reads them and drops the
-- table. What it prints between the calls is left out.
pub mod Runs
use incubator_horaedb_client.Prelude.{ℕ, ◌+◌, Option, none, some, List, [], ◌∷◌, ◌++◌, Text, text}
use incubator_horaedb_client.Prelude.Int.{pos}
use incubator_horaedb_client.Config.{Authorization}
use incubator_horaedb_client.Errors
use incubator_horaedb_client.Errors.{Result, ok, err}
use incubator_horaedb_client.Model.Value.{Value}
use incubator_horaedb_client.Model.Value.Value.{string, int32, varbinary}
use incubator_horaedb_client.Model.SqlQuery
use incubator_horaedb_client.Model.SqlQuery.Response
use incubator_horaedb_client.Model.SqlQuery.Display.{fmt}
use incubator_horaedb_client.Write.Point.{
  Point, PointBuilder, BuildResult, built, refused, new, timestamp, tag, field, build,
}
use incubator_horaedb_client.Write.Request
use incubator_horaedb_client.Write.Request.{empty_request, add_points}
use incubator_horaedb_client.RpcClient.{RpcContext, default_context, with_database}
use incubator_horaedb_client.DbClient.Builder
use incubator_horaedb_client.DbClient.Builder.{Builder, direct}

-- The trait `DbClient`, of a client with the state `C`; a call that panics is `none`.
pub record DbClient (X W C : Type 0) : Type 0 where
  pub sql_query :
      C → RpcContext → SqlQuery.Request → W → Option (Result X Response.Response × C × W)
  pub write : C → RpcContext → Request.Request → W → Option (Result X Errors.Response × C × W)

infixl 5 ◌>>=◌
abbrev ◌>>=◌ : {A B : Type 0} → Option A → (A → Option B) → Option B
none >>= k = none
some a >>= k = k a

-- `expect`, which panics on an error.
abbrev pub expect : {X W C A : Type 0} → Option (Result X A × C × W) → Option (A × C × W)
expect none = none
expect (some (err e, c, w)) = none
expect (some (ok a, c, w)) = some (a, c, w)

-- `unwrap` of what a builder built.
abbrev pub unwrap : BuildResult → Option Point
unwrap (built p) = some p
unwrap (refused msg) = none

abbrev pub test_table : Text
test_table = text "horaedb"

-- The text with its line ends and indentation.
abbrev newline : Text
newline = 10 ∷ []

abbrev line : Text → Text
line s = newline ++ (text "                " ++ s)

unfoldable pub create_table_request : SqlQuery.Request
create_table_request = record {
  tables = test_table ∷ [];
  sql =
      text "CREATE TABLE IF NOT EXISTS horaedb ("
      ++ (line (text "str_tag string TAG,")
          ++ (line (text "int_tag int32 TAG,")
              ++ (line (text "var_tag varbinary TAG,")
                  ++ (line (text "str_field string,")
                      ++ (line (text "int_field int32,")
                          ++ (line (text "bin_field varbinary,")
                              ++ (line (text "t timestamp NOT NULL,")
                                  ++ (line (text "TIMESTAMP KEY(t)) ENGINE=Analytic with")
                                      ++ (newline ++ text "(enable_ttl='false')")))))))));
}

unfoldable pub drop_table_request : SqlQuery.Request
drop_table_request = record { tables = test_table ∷ []; sql = text "DROP TABLE horaedb" }

unfoldable pub query_request : SqlQuery.Request
query_request = record { tables = test_table ∷ []; sql = text "select * from horaedb;" }

-- The two chains of builder calls; `ts1` is the time in milliseconds, which is not before 1970.
unfoldable pub first_builder : ℕ → PointBuilder
unfolding new timestamp tag field
first_builder ts1 =
    let b1 = timestamp (new test_table) (pos ts1) in
    let b2 = tag b1 (text "str_tag") (string (text "tag_val1")) in
    let b3 = tag b2 (text "int_tag") (int32 (pos 42)) in
    let b4 = tag b3 (text "var_tag") (varbinary (text "tag_bin_val1")) in
    let b5 = field b4 (text "str_field") (string (text "field_val1")) in
    let b6 = field b5 (text "int_field") (int32 (pos 42)) in
    field b6 (text "bin_field") (varbinary (text "field_bin_val1"))

unfoldable pub second_builder : ℕ → PointBuilder
unfolding new timestamp tag field
second_builder ts1 =
    let b1 = timestamp (new test_table) (pos (ts1 + 40)) in
    let b2 = tag b1 (text "str_tag") (string (text "tag_val2")) in
    let b3 = tag b2 (text "int_tag") (int32 (pos 43)) in
    let b4 = tag b3 (text "var_tag") (varbinary (text "tag_bin_val2")) in
    let b5 = field b4 (text "str_field") (string (text "field_val2")) in
    field b5 (text "bin_field") (varbinary (text "field_bin_val2"))

-- The points of the write; `none` is the panic of `unwrap`.
unfoldable pub points : ℕ → Option (List Point)
unfolding first_builder second_builder build
points ts1 = do
  first ← unwrap (build (first_builder ts1))
  second ← unwrap (build (second_builder ts1))
  some (first ∷ second ∷ [])

module _ {X W C : Type 0} (client : DbClient X W C) (debug : Value → Text) where
  unfoldable pub create_table : C → RpcContext → W → Option (Response.Response × C × W)
  unfolding create_table_request
  create_table c ctx w = expect (client.sql_query c ctx create_table_request w)

  unfoldable pub drop_table : C → RpcContext → W → Option (Response.Response × C × W)
  unfolding drop_table_request
  drop_table c ctx w = expect (client.sql_query c ctx drop_table_request w)

  unfoldable pub write : ℕ → C → RpcContext → W → Option (Errors.Response × C × W)
  unfolding points add_points
  write ts1 c ctx w = do
    ps ← points ts1
    expect (client.write c ctx (add_points empty_request ps) w)

  -- The text of the rows.
  unfoldable pub sql_query : C → RpcContext → W → Option (Text × C × W)
  unfolding query_request fmt
  sql_query c ctx w = do
    (resp, c', w') ← expect (client.sql_query c ctx query_request w)
    some (fmt debug resp.rows, c', w')

  -- The calls of `main` on the client; the table that was read.
  unfoldable pub run : ℕ → RpcContext → C → W → Option (Text × C × W)
  unfolding create_table write sql_query drop_table
  run ts1 ctx c w = do
    (created, c1, w1) ← create_table c ctx w
    (written, c2, w2) ← write ts1 c1 ctx w1
    (table, c3, w3) ← sql_query c2 ctx w2
    (dropped, c4, w4) ← drop_table c3 ctx w3
    some (table, c4, w4)

-- The settings and the context of `main`.
unfoldable pub builder : Builder
unfolding Builder.new Builder.with_authorization
builder =
    Builder.with_authorization (Builder.new (text "127.0.0.1:8831") direct)
      (record { username = text "user"; password = text "pass" })

unfoldable pub rpc_ctx : RpcContext
unfolding with_database
rpc_ctx = with_database default_context (text "public")
