-- ===== src/Persistence.antt =====
-- The package adapters/persistence: the transactions on the tables of leases and mutations.
pub mod Leases
pub mod Mutations
pub mod Scopes
pub mod Quotas
pub mod Policies
pub mod Jobs
pub mod Admission
mod Examples
