-- ===== src/Write/Point/Build.antt =====
-- What a chain of builder calls of src/model/write/point.rs builds, from the calls alone.
use incubator_horaedb_client.Prelude.{
  ◌≡◌, refl, Bool, true, false, ◌||◌, Option, some, none, List, [], ◌∷◌, Text, text_beq, is_empty,
  if◌then◌else◌, arith, text_ord, not, ◌&&◌, chosen-text_cmp,
}
use incubator_horaedb_client.Prelude.Int.{ℤ}
use incubator_horaedb_client.Prelude.BTreeMap
use incubator_horaedb_client.Prelude.BTreeMap.{BTreeMap, IsSorted}
use incubator_horaedb_client.Model.Value.{Value}
use incubator_horaedb_client.Write.Point.{
  is_reserved_column_name, PointBuilder, new, table, timestamp, tag, field, BuildResult, built,
  refused, reserved_error, no_field_error, no_timestamp_error, build,
}

-- One call on the builder.
pub data Call : Type 0 where
  set_table : Text → Call
  set_timestamp : ℤ → Call
  add_tag add_field : Text → Value → Call

unfoldable pub call : PointBuilder → Call → PointBuilder
unfolding table timestamp tag field
call b (set_table name) = table b name
call b (set_timestamp ts) = timestamp b ts
call b (add_tag name value) = tag b name value
call b (add_field name value) = field b name value

-- A chain of calls, first call first.
unfoldable pub run : PointBuilder → List Call → PointBuilder
unfolding call
run b [] = b
run b (c ∷ cs) = run (call b c) cs

abbrev uses_reserved : Call → Bool
uses_reserved (add_tag name value) = is_reserved_column_name name
uses_reserved (add_field name value) = is_reserved_column_name name
uses_reserved _ = false

abbrev pub any_reserved : List Call → Bool
any_reserved [] = false
any_reserved (c ∷ cs) = uses_reserved c || any_reserved cs

abbrev pub any_field : List Call → Bool
any_field [] = false
any_field (add_field name value ∷ cs) = true
any_field (c ∷ cs) = any_field cs

-- The argument of the last call of a kind, or what stood there before.
abbrev pub last_table : Text → List Call → Text
last_table t [] = t
last_table t (set_table name ∷ cs) = last_table name cs
last_table t (c ∷ cs) = last_table t cs

abbrev pub last_timestamp : Option ℤ → List Call → Option ℤ
last_timestamp t [] = t
last_timestamp t (set_timestamp ts ∷ cs) = last_timestamp (some ts) cs
last_timestamp t (c ∷ cs) = last_timestamp t cs

abbrev pub last_tag : Text → Option Value → List Call → Option Value
last_tag k v [] = v
last_tag k v (add_tag name value ∷ cs) = last_tag k (if text_beq name k then some value else v) cs
last_tag k v (c ∷ cs) = last_tag k v cs

abbrev pub last_field : Text → Option Value → List Call → Option Value
last_field k v [] = v
last_field k v (add_field name value ∷ cs) =
    last_field k (if text_beq name k then some value else v) cs
last_field k v (c ∷ cs) = last_field k v cs

table-run : (b : PointBuilder) (cs : List Call) → (run b cs).table ≡ last_table b.table cs
unfolding run
table-run b [] = refl
table-run b (set_table name ∷ cs) = table-run (table b name) cs
table-run b (c ∷ cs) = table-run (call b c) cs

timestamp-run :
    (b : PointBuilder) (cs : List Call) → (run b cs).timestamp ≡ last_timestamp b.timestamp cs
unfolding run
timestamp-run b [] = refl
timestamp-run b (set_timestamp ts ∷ cs) = timestamp-run (timestamp b ts) cs
timestamp-run b (c ∷ cs) = timestamp-run (call b c) cs

reserved-run :
    (b : PointBuilder) (cs : List Call)
    → (run b cs).contains_reserved_column_name
      ≡ (b.contains_reserved_column_name || any_reserved cs)
unfolding run
reserved-run b [] = ground arith
reserved-run b (set_table name ∷ cs) = reserved-run (table b name) cs
reserved-run b (set_timestamp ts ∷ cs) = reserved-run (timestamp b ts) cs
reserved-run b (add_tag name value ∷ cs) = ground (arith, reserved-run (tag b name value) cs)
reserved-run b (add_field name value ∷ cs) = ground (arith, reserved-run (field b name value) cs)

is_empty-insert :
    (k : Text) (v : Value) (m : BTreeMap Text Value) → is_empty (BTreeMap.insert k v m) ≡ false
unfolding BTreeMap.insert
is_empty-insert k v [] = refl
is_empty-insert k v ((j, w) ∷ m) = ground arith

no_field-run :
    (b : PointBuilder) (cs : List Call)
    → is_empty (run b cs).fields ≡ (is_empty b.fields && not (any_field cs))
unfolding run
no_field-run b [] = ground arith
no_field-run b (add_field name value ∷ cs) =
    ground (arith, no_field-run (field b name value) cs, is_empty-insert name value b.fields)
no_field-run b (set_table name ∷ cs) = no_field-run (table b name) cs
no_field-run b (set_timestamp ts ∷ cs) = no_field-run (timestamp b ts) cs
no_field-run b (add_tag name value ∷ cs) = no_field-run (tag b name value) cs

-- What a chain of calls builds, by its table name and calls.
abbrev pub expected : Text → List Call → BuildResult
expected t cs =
    if any_reserved cs
    then refused reserved_error
    else if not (any_field cs)
    then refused no_field_error
    else elim (last_timestamp none cs) [
      | none ↦ refused no_timestamp_error
      | some ts ↦ built (record {
        table = last_table t cs;
        timestamp = ts;
        tags = (run (new t) cs).tags;
        fields = (run (new t) cs).fields;
      })
    ]

-- A chain of calls after `new` fails if it names a reserved column, else if it sets no field, else
-- if it sets no timestamp, with the error of the first of these that holds. Otherwise it builds the
-- point with the last table name and timestamp that were set, and the maps that were collected.
pub build-run : (t : Text) (cs : List Call) → build (run (new t) cs) ≡ expected t cs
unfolding build new
build-run t cs = ground (
  arith,
  table-run (new t) cs,
  timestamp-run (new t) cs,
  reserved-run (new t) cs,
  no_field-run (new t) cs,
)

tags-run :
    (k : Text) (b : PointBuilder) (cs : List Call)
    → BTreeMap.get k (run b cs).tags ≡ last_tag k (BTreeMap.get k b.tags) cs
unfolding run
tags-run k b [] = refl
tags-run k b (add_tag name value ∷ cs) =
    rw (← chosen-text_cmp name k value (BTreeMap.get k b.tags))
      (rw (← BTreeMap.get-insert name k value b.tags) (tags-run k (tag b name value) cs))
tags-run k b (c ∷ cs) = tags-run k (call b c) cs

fields-run :
    (k : Text) (b : PointBuilder) (cs : List Call)
    → BTreeMap.get k (run b cs).fields ≡ last_field k (BTreeMap.get k b.fields) cs
unfolding run
fields-run k b [] = refl
fields-run k b (add_field name value ∷ cs) =
    rw (← chosen-text_cmp name k value (BTreeMap.get k b.fields))
      (rw (← BTreeMap.get-insert name k value b.fields) (fields-run k (field b name value) cs))
fields-run k b (c ∷ cs) = fields-run k (call b c) cs

run-IsSorted :
    (b : PointBuilder) (cs : List Call)
    → IsSorted b.tags
    → IsSorted b.fields
    → IsSorted (run b cs).tags × IsSorted (run b cs).fields
unfolding run
run-IsSorted b [] h k = (h, k)
run-IsSorted b (add_tag name value ∷ cs) h k =
    run-IsSorted (tag b name value) cs (BTreeMap.insert-IsSorted name value b.tags h) k
run-IsSorted b (add_field name value ∷ cs) h k =
    run-IsSorted (field b name value) cs h (BTreeMap.insert-IsSorted name value b.fields k)
run-IsSorted b (set_table name ∷ cs) h k = run-IsSorted (table b name) cs h k
run-IsSorted b (set_timestamp ts ∷ cs) h k = run-IsSorted (timestamp b ts) cs h k

-- The maps of a chain of calls hold under each name the value of the last tag or field call with
-- that name, and are in increasing order of the names.
pub run-maps :
    (t k : Text) (cs : List Call)
    → (BTreeMap.get k (run (new t) cs).tags ≡ last_tag k none cs)
      × (BTreeMap.get k (run (new t) cs).fields ≡ last_field k none cs)
      × IsSorted (run (new t) cs).tags
      × IsSorted (run (new t) cs).fields
unfolding new BTreeMap.get
run-maps t k cs =
    let (tags, fields) = run-IsSorted (new t) cs tt tt in
    (tags-run k (new t) cs, fields-run k (new t) cs, tags, fields)
