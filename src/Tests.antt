-- ===== src/Tests.antt =====
-- Tests of the models of src/ at concrete inputs.
mod Values
mod Writes
mod Shared
mod Grpc
mod Mocked
mod Routing
mod Clients
mod Queries
mod Joined
mod Servers
pub mod Totals
mod ReadWrite
