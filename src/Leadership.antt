-- ===== src/Leadership.antt =====
-- The package leadership: generation-fenced leadership.
pub mod Lease
pub mod Session
pub mod Mutation
pub mod Manager
mod Examples
