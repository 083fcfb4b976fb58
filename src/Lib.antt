-- ===== src/Lib.antt =====
-- A verification library for the HoraeDB client (Rust).
--
-- The client writes points to HoraeDB servers and queries them over gRPC. A caller builds points and
-- requests (src/model), a client of one of two modes (src/db_client) resolves the database of the
-- call, finds the server or servers (src/router.rs), converts the request to its protobuf form and
-- sends it through an rpc client (src/rpc_client); the results of a write over several servers are
-- merged (src/errors.rs).
--
-- Files and what they model:
--   Prelude           shared names, tests, lists, byte texts, machine integers, decimal numbers, maps
--   Util              src/util.rs: StatusCode, is_ok, should_refresh
--   Errors            src/errors.rs, src/model/write/response.rs: Error, RouteBasedWriteError, its From
--   Config            src/config.rs
--   Model/Value       src/model/value.rs: Value, as_i8 to as_str (Cast), to_bytes (Bytes), the
--                     conversions from and to ValuePb (Proto)
--   Model/Route       src/model/route.rs: Endpoint, Display, FromStr
--   Write             src/model/write: Point and PointBuilder (Point), Request (Request), pb_builder
--                     (PbBuilder), with NameDict (Names), the series of a table (Series) and a reader
--                     of the protobuf form (Decode); the way of a point from add_points to the
--                     protobuf form (Added, Arrives)
--   Model/SqlQuery    src/model/sql_query: RowBuilder (Row), the response (Response; Response/Decoded
--                     for when it is decoded and what errors there are; Row/Support, Row/Outcomes
--                     and Response/Panics for when that panics), CsvFormatter (Display)
--   RpcClient         src/rpc_client: the traits, RpcClientImpl and its factory (Impl; Impl/Calls and
--                     Impl/Built for what they do), the mock client (Mock)
--   Router            src/router.rs: RouterImpl; its two loops (Scan, Fill), the answers of a call
--                     (Found, Answers, Total, Sound, Routes), calls in sequence (Evict), calls at the
--                     same time (Shared), and the router over the mock client (Mocked)
--   DbClient          src/db_client: resolve_database, InnerClient (Inner), RawImpl (Raw),
--                     RouteBasedImpl (RouteBased; RouteBased/Joined for the futures of a write that run
--                     at the same time), Builder (Builder)
--   Example           examples/read_write.rs (Example), and how it can fail (Example/Runs)
--   Tests             runs at concrete inputs
--
-- How code becomes definitions:
--   - A text is the list of its bytes. u8 to u64 are natural numbers and i8 to i64 are integers, with
--     `InRange` for the values of the Rust types; casts wrap as written out. The u32 sums of the merge
--     and the u32 counter of a NameDict wrap modulo 2 ^ 32, as in a release build.
--   - A float is its IEEE 754 bit pattern, and casts to floats round to nearest, ties to even. The
--     payload of a NaN that is widened is kept and made quiet.
--   - A HashMap or DashMap is an association list. The order in which it yields its entries is a
--     parameter `HashOrder`, any rearrangement of the entries. A BTreeMap is a sorted list.
--   - A Result is `Result X A`, where `X` stands for the error values of other crates. A panic (an
--     assertion, an index out of bounds, a failed unwrap) is `none`, or `panicked` for the rows.
--   - An asynchronous call is a function from a state `W` of the outside world to a result and the
--     state after it. Calls on one client run one after the other, and in `write` of RouteBasedImpl so
--     do the futures of a split write. The shared cells and caches are parts of the client's record,
--     which each call returns.
--   - `DbClient.RouteBased.Joined` has the futures of a split write as `join_all` runs them: a turn of
--     a future (`step`) ends where it awaits, after the connection and after the call of the server,
--     and a schedule is any list of the positions of futures.
--   - Calls of `route` and `evict` that run at the same time on one router take turns
--     (`Router.Shared.step`): a turn is one access to the shared cache or the call of the server, since
--     a DashMap locks an entry for one access. A schedule is any list of the positions of calls, and a
--     position that has ended or does not exist loses its turn.
--   - A OnceCell (`get_or_try_init`, `get_router`) is as the crate tokio documents it: a value that is
--     there is given, and an initialisation that fails leaves the cell empty.
--   - Other crates are parameters: the channel and its metadata (`Channel`, `Transport`), the decoders
--     of query results (`Decoders`), Arrow arrays (`ArrayRef`), the derived Debug of a value.
--   - Fuel: the bit length of a float's significand runs on 64 steps, enough for the numbers below
--     2 ^ 64 that are cast, and the decimal digits of a u32 on 10 steps, enough for numbers below
--     10 ^ 10. All other loops are structural.
--
-- Not modelled: concurrent use of one client beyond its router; the texts of Display and Debug of
-- errors; as_any; the `todo!()` calls of the mock client; the re-exports of src/lib.rs; what
-- examples/read_write.rs prints between its calls.
pub mod Prelude
pub mod Util
pub mod Errors
pub mod Config
pub mod Model
pub mod Write
pub mod RpcClient
pub mod Router
pub mod DbClient
pub mod Example
pub mod Tests
