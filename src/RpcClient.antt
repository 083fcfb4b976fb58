-- ===== src/RpcClient.antt =====
-- src/rpc_client/mod.rs: the context of a call, the messages of the protocol, and the interface of
-- an rpc client. `X` stands for the error values of other crates and `W` for the state of the world
-- outside the client, which a call may change.
pub mod Impl
pub mod Mock
use incubator_horaedb_client.Prelude.{ℕ, Option, none, some, List, Text}
use incubator_horaedb_client.Config.{Duration}
use incubator_horaedb_client.Errors.{Result}
use incubator_horaedb_client.Model.Route.{EndpointPb}
use incubator_horaedb_client.Write.PbBuilder.{WriteTableRequestPb}

pub record RpcContext : Type 0 where
  pub database : Option Text
  pub timeout : Option Duration

abbrev pub default_context : RpcContext
default_context = record { database = none; timeout = none }

unfoldable pub with_database : RpcContext → Text → RpcContext
with_database ctx name = record ctx { database = some name }

unfoldable pub with_timeout : RpcContext → Duration → RpcContext
with_timeout ctx t = record ctx { timeout = some t }

pub record RequestContext : Type 0 where
  pub database : Text

pub record ResponseHeader : Type 0 where
  pub code : ℕ
  pub error : Text

pub record RouteRequest : Type 0 where
  pub context : Option RequestContext
  pub tables : List Text

pub record Route : Type 0 where
  pub table : Text
  pub endpoint : Option EndpointPb

pub record RouteResponse : Type 0 where
  pub header : Option ResponseHeader
  pub routes : List Route

pub record SqlQueryRequestPb : Type 0 where
  pub context : Option RequestContext
  pub tables : List Text
  pub sql : Text

pub data Compression : Type 0 where
  uncompressed zstd : Compression

pub record ArrowPayload : Type 0 where
  pub record_batches : List (List ℕ)
  pub compression : Compression

pub data OutputPb : Type 0 where
  affected_rows : ℕ → OutputPb
  arrow : ArrowPayload → OutputPb

pub record SqlQueryResponsePb : Type 0 where
  pub header : Option ResponseHeader
  pub output : Option OutputPb

pub record WriteRequestPb : Type 0 where
  pub context : Option RequestContext
  pub table_requests : List WriteTableRequestPb

pub record WriteResponsePb : Type 0 where
  pub header : Option ResponseHeader
  pub success : ℕ
  pub failed : ℕ

-- An asynchronous call, run to its end.
abbrev pub Call : Type 0 → Type 0 → Type 0 → Type 0
Call X W A = W → Result X A × W

-- The trait `RpcClient`.
pub record RpcClient (X W : Type 0) : Type 0 where
  pub sql_query : RpcContext → SqlQueryRequestPb → Call X W SqlQueryResponsePb
  pub write : RpcContext → WriteRequestPb → Call X W WriteResponsePb
  pub route : RpcContext → RouteRequest → Call X W RouteResponse

-- The trait `RpcClientFactory`.
pub record RpcClientFactory (X W : Type 0) : Type 0 where
  pub build : Text → Call X W (RpcClient X W)
