-- ===== src/Errors.antt =====
-- src/errors.rs and src/model/write/response.rs: the errors of the client, and the merge of the
-- results of a write that was split over several servers.
pub mod Merge
use incubator_horaedb_client.Prelude.{
  ℕ, ◌+◌, ◌%◌, ◌^◌, Bool, true, false, List, [], ◌∷◌, ◌++◌, Text,
}

-- `model::write::Response`: rows written and rows that failed, each a u32.
pub record Response : Type 0 where
  pub success : ℕ
  pub failed : ℕ

pub record ServerError : Type 0 where
  pub code : ℕ
  pub msg : Text

pub data AuthCode : Type 0 where
  ok invalid_tenant_meta invalid_token_meta : AuthCode

pub record AuthFailStatus : Type 0 where
  pub code : AuthCode
  pub msg : Text

-- `X` stands for the error values of other crates: `tonic::Status`, boxed errors, `anyhow::Error`.
-- `TableErrors` is the `Vec<(Vec<String>, Error)>` inside a `RouteBasedWriteError`.
mutual
  pub data Error (X : Type 0) : Type 0 where
    server : ServerError → Error X
    rpc : X → Error X
    connect : Text → X → Error X
    client : Text → Error X
    auth_fail : AuthFailStatus → Error X
    route_based_write_error : List Text → Response → TableErrors X → Error X
    unknown : Text → Error X
    build_rows : Text → Error X
    decode_arrow_payload : X → Error X
    no_database : Error X
    other : X → Error X

  pub data TableErrors (X : Type 0) : Type 0 where
    nil : TableErrors X
    cons : List Text → Error X → TableErrors X → TableErrors X

-- Rust's `Result<T, Error>`.
pub data Result (X A : Type 0) : Type 0 where
  ok : A → Result X A
  err : Error X → Result X A

infixl 5 ◌>>=◌
abbrev pub ◌>>=◌ : {X A B : Type 0} → Result X A → (A → Result X B) → Result X B
ok a >>= f = f a
err e >>= f = err e

-- A result whose error is one of another crate.
pub data Foreign (X A : Type 0) : Type 0 where
  good : A → Foreign X A
  bad : X → Foreign X A

-- `ok` is (tables, write response) and `errors` is [(tables, error)].
pub record RouteBasedWriteError (X : Type 0) : Type 0 where
  pub ok_tables : List Text
  pub ok_response : Response
  pub errors : TableErrors X

-- `errors.push((tables, e))`.
unfoldable pub push_error : {X : Type 0} → TableErrors X → List Text → Error X → TableErrors X
push_error nil tables e = cons tables e nil
push_error (cons ts d es) tables e = cons ts d (push_error es tables e)

-- A sum of u32 counters as a release build makes it.
abbrev pub add_u32 : ℕ → ℕ → ℕ
add_u32 a b = (a + b) % 2 ^ 32

-- One round of the loop in `RouteBasedWriteError::from`.
unfoldable pub merge_result :
    {X : Type 0} → RouteBasedWriteError X → List Text → Result X Response → RouteBasedWriteError X
unfolding push_error
merge_result acc tables (ok resp) = record acc {
  ok_tables = acc.ok_tables ++ tables;
  ok_response = record {
    success = add_u32 acc.ok_response.success resp.success;
    failed = add_u32 acc.ok_response.failed resp.failed;
  };
}
merge_result acc tables (err e) = record acc { errors = push_error acc.errors tables e }

unfoldable pub merge_results :
    {X : Type 0}
    → RouteBasedWriteError X
    → List (List Text × Result X Response)
    → RouteBasedWriteError X
merge_results acc [] = acc
merge_results acc ((tables, r) ∷ rest) = merge_results (merge_result acc tables r) rest

abbrev pub no_results : {X : Type 0} → RouteBasedWriteError X
no_results = record {
  ok_tables = [];
  ok_response = record { success = 0; failed = 0 };
  errors = nil;
}

-- `From<Vec<(Vec<String>, Result<Response>)>> for RouteBasedWriteError`.
unfoldable pub from_results :
    {X : Type 0} → List (List Text × Result X Response) → RouteBasedWriteError X
unfolding merge_results merge_result
from_results results = merge_results no_results results

unfoldable pub all_ok : {X : Type 0} → RouteBasedWriteError X → Bool
all_ok e = elim e.errors [ nil ↦ true | cons ts d es ↦ false ]
