-- ===== src/Domain.antt =====
-- The package domain: the rules on jobs that every other package shares.
pub mod Lifecycle
