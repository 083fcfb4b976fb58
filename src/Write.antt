-- ===== src/Write.antt =====
-- src/model/write: points, write requests and their protobuf form.
pub mod Point
pub mod Request
pub mod Added
pub mod Arrives
pub mod PbBuilder
