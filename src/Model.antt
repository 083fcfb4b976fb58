-- ===== src/Model.antt =====
-- src/model: the data that the client exchanges with the server.
pub mod Value
pub mod Route
pub mod SqlQuery
