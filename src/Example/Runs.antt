-- ===== src/Example/Runs.antt =====
-- What examples/read_write.rs writes, and how it can fail.
use incubator_horaedb_client.Prelude.{
  ℕ, ◌+◌, ◌≡◌, ◌≢◌, refl, ◌⊎◌, inl, inr, Option, none, some, List, [], ◌∷◌, Text, text, text_ord,
  text_cmp, eq_ignore_ascii_case, arith,
}
use incubator_horaedb_client.Prelude.Int.{pos}
use incubator_horaedb_client.Prelude.BTreeMap
use incubator_horaedb_client.Model.Value.{Value}
use incubator_horaedb_client.Model.Value.Value.{string, int32, varbinary}
use incubator_horaedb_client.Write.Point.{Point, is_reserved_column_name, build}
use incubator_horaedb_client.Write.Request.{empty_request, add_points}
use incubator_horaedb_client.Write.Added.{AreEncodable, add_points-IsWellFormed}
use incubator_horaedb_client.Errors.{Error, Result, ok, err}
use incubator_horaedb_client.Model.SqlQuery
use incubator_horaedb_client.Write.Request
use incubator_horaedb_client.RpcClient.{RpcContext}
use incubator_horaedb_client.Model.SqlQuery.Response.Panics.{IsArrow}
use incubator_horaedb_client.DbClient.Inner.{Env}
use incubator_horaedb_client.DbClient.RouteBased.{RouteBasedImpl, RouteOrders}
use incubator_horaedb_client.DbClient.RouteBased.Query
use incubator_horaedb_client.DbClient.RouteBased.Write
use incubator_horaedb_client.DbClient.RouteBased.Query.Panics.{
  IsAnsweredLarge, routed_query-none_iff,
}
use incubator_horaedb_client.DbClient.RouteBased.Write.Panics.{routed_write_total}
use incubator_horaedb_client.Example.{
  DbClient, create_table_request, drop_table_request, query_request, rpc_ctx, create_table,
  drop_table, write, sql_query, run, test_table, first_builder, second_builder, points,
}

abbrev first : ℕ → Point
first ts1 = record {
  table = test_table;
  timestamp = pos ts1;
  tags =
      (text "int_tag", int32 (pos 42))
      ∷ (text "str_tag", string (text "tag_val1"))
      ∷ (text "var_tag", varbinary (text "tag_bin_val1"))
      ∷ [];
  fields =
      (text "bin_field", varbinary (text "field_bin_val1"))
      ∷ (text "int_field", int32 (pos 42))
      ∷ (text "str_field", string (text "field_val1"))
      ∷ [];
}

abbrev second : ℕ → Point
second ts1 = record {
  table = test_table;
  timestamp = pos (ts1 + 40);
  tags =
      (text "int_tag", int32 (pos 43))
      ∷ (text "str_tag", string (text "tag_val2"))
      ∷ (text "var_tag", varbinary (text "tag_bin_val2"))
      ∷ [];
  fields =
      (text "bin_field", varbinary (text "field_bin_val2"))
      ∷ (text "str_field", string (text "field_val2"))
      ∷ [];
}

points_lem : (ts1 : ℕ) → points ts1 ≡ some (first ts1 ∷ second ts1 ∷ [])
unfolding points first_builder second_builder build is_reserved_column_name eq_ignore_ascii_case
    BTreeMap.insert text_cmp
points_lem ts1 = refl

both_encodable : (ts1 : ℕ) → AreEncodable (first ts1 ∷ second ts1 ∷ [])
both_encodable ts1 = (ground arith, omega arith, omega arith)

-- A call of the client that ends with an error, or with a result.
abbrev Errs : {X W C A : Type 0} → Option (Result X A × C × W) → Type 0
Errs {X} {W} {C} o = (e : Error X) × (c : C) × (w : W) × (o ≡ some (err e, c, w))

abbrev Returns : {X W C A : Type 0} → Option (Result X A × C × W) → C → W → Type 0
Returns {X} {W} {C} {A} o c w = (a : A) × (o ≡ some (ok a, c, w))

expect-cases :
    {X W C A : Type 0} (L : Type 0) (o : Option (Result X A × C × W))
    → (o ≡ none → L)
    → (Errs o ⊎ L) ⊎ ((c : C) × (w : W) × Returns o c w)
expect-cases L none h = inl (inr (h refl))
expect-cases L (some (err e, c, w)) h = inl (inl (e, c, w, refl))
expect-cases L (some (ok a, c, w)) h = inr (c, w, (a, refl))

pub data Call : Type 0 where
  asks : SqlQuery.Request → Call
  sends : Request.Request → Call

abbrev pub calls_of : ℕ → List Call
calls_of ts1 =
    asks create_table_request
    ∷ sends (add_points empty_request (first ts1 ∷ second ts1 ∷ []))
    ∷ asks query_request
    ∷ asks drop_table_request
    ∷ []

module _ {X W C : Type 0} (client : DbClient X W C) (ctx : RpcContext)
    (Large : C → SqlQuery.Request → W → Type 0) where
  -- The calls in their order: one of them ends with an error, or is a query that panics, and those
  -- before it return.
  abbrev pub OneFails : List Call → C → W → Type 0
  OneFails [] c w = ⊥
  OneFails (asks req ∷ calls) c w =
      (Errs (client.sql_query c ctx req w) ⊎ Large c req w)
      ⊎ ((c' : C) × (w' : W) × Returns (client.sql_query c ctx req w) c' w' × OneFails calls c' w')
  OneFails (sends req ∷ calls) c w =
      (Errs (client.write c ctx req w) ⊎ ⊥)
      ⊎ ((c' : C) × (w' : W) × Returns (client.write c ctx req w) c' w' × OneFails calls c' w')

  module _ (debug : Value → Text)
      (asks_panics : (c : C) (req : SqlQuery.Request) (w : W)
        → client.sql_query c ctx req w ≡ none
        → Large c req w)
      (ts1 : ℕ)
      (sends_total : (c : C) (w : W)
        → client.write c ctx (add_points empty_request (first ts1 ∷ second ts1 ∷ [])) w
          ≢ none) where
    run-OneFails :
        (c : C) (w : W) → run client debug ts1 ctx c w ≡ none → OneFails (calls_of ts1) c w
    unfolding run create_table write sql_query drop_table
    run-OneFails c w h = elim (asked c create_table_request w) [
      | inl failed ↦ inl failed
      | inr (c1, w1, (r1, created)) ↦ inr (
        c1,
        w1,
        (r1, created),
        elim (sent c1 w1) [
          | inl failed ↦ inl failed
          | inr (c2, w2, (r2, written)) ↦ inr (
            c2,
            w2,
            (r2, written),
            elim (asked c2 query_request w2) [
              | inl failed ↦ inl failed
              | inr (c3, w3, (r3, read)) ↦ inr (
                c3,
                w3,
                (r3, read),
                elim (asked c3 drop_table_request w3) [
                  | inl failed ↦ inl failed
                  | inr (c4, w4, (r4, dropped)) ↦
                      absurd (ground (arith, created, points_lem ts1, written, read, dropped))
                ],
              )
            ],
          )
        ],
      )
    ]
      where
        asked :
            (c' : C) (req : SqlQuery.Request) (w' : W)
            → (Errs (client.sql_query c' ctx req w') ⊎ Large c' req w')
              ⊎ ((c'' : C) × (w'' : W) × Returns (client.sql_query c' ctx req w') c'' w'')
        asked c' req w' =
            expect-cases (Large c' req w') (client.sql_query c' ctx req w') (asks_panics c' req w')

        sent :
            (c' : C) (w' : W)
            → (Errs
                  (client.write c' ctx (add_points empty_request (first ts1 ∷ second ts1 ∷ [])) w')
                ⊎ ⊥)
              ⊎ ((c'' : C) × (w'' : W) × Returns
                    (client.write c' ctx
                      (add_points empty_request (first ts1 ∷ second ts1 ∷ []))
                      w')
                    c''
                    w'')
        sent c' w' = expect-cases ⊥ _ (sends_total c' w')

-- The route-based client as a value of the trait.
abbrev pub route_based_client :
    {X W : Type 0} → Env X W → RouteOrders → DbClient X W (RouteBasedImpl X W)
route_based_client env orders = record {
  sql_query = Query.sql_query env orders;
  write = Write.write env orders;
}

-- If the record batches that are read are as the crate arrow documents them, then the example with
-- its route-based client, whatever the servers answer, panics only in two ways: of its calls, which
-- are to create the table, to write the two points, to query and to drop the table, in this order,
-- one ends with an error, which `expect` turns into a panic, or is a query that is answered with
-- record batches of which the first column that cannot be filled in has the type LargeUtf8 or
-- LargeBinary; and the calls before it return.
pub run-none :
    {X W : Type 0} (env : Env X W) (orders : RouteOrders) (debug : Value → Text) (ts1 : ℕ)
    (c : RouteBasedImpl X W) (w : W)
    → IsArrow env.decoders
    → run (route_based_client env orders) debug ts1 rpc_ctx c w ≡ none
    → OneFails
        (route_based_client env orders)
        rpc_ctx
        (λ c' req w'. IsAnsweredLarge env orders c' rpc_ctx req w')
        (calls_of ts1)
        c
        w
run-none env orders debug ts1 c w documented h =
    run-OneFails (route_based_client env orders) rpc_ctx
      (λ c' req w'. IsAnsweredLarge env orders c' rpc_ctx req w') debug
      (λ c' req w'. (routed_query-none_iff env orders c' rpc_ctx req w' documented).0) ts1
      (λ c' w'.
        routed_write_total env orders c' rpc_ctx
          (add_points empty_request (first ts1 ∷ second ts1 ∷ [])) w'
          (add_points-IsWellFormed (first ts1 ∷ second ts1 ∷ []) (both_encodable ts1)))
      c w h
