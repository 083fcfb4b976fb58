-- ===== src/Model/SqlQuery.antt =====
-- src/model/sql_query: the rows of a query's result, and its response.
pub mod Row
pub mod Response
pub mod Display
use incubator_horaedb_client.Prelude.{List, Text}

-- `Request` of src/model/sql_query/request.rs.
pub record Request : Type 0 where
  pub tables : List Text
  pub sql : Text
