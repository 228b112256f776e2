-- ===== src/Scheduler.antt =====
-- The package scheduler: which queued job runs next.
pub mod Input
pub mod Order
pub mod Select
pub mod Fairness
mod Examples
