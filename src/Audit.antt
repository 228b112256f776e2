-- ===== src/Audit.antt =====
-- The package domain/audit: how long an audit record is kept.
pub mod Retention
mod Examples
