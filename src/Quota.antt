-- ===== src/Quota.antt =====
-- The package domain/policyquota: quota counters and reservations, and the policies that limit them.
pub mod Counters
pub mod Rules
pub mod Reservation
pub mod Ledger
pub mod Policy
mod Examples
