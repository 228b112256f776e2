-- ===== src/Scheduler/Fairness.antt =====
-- internal/scheduler/scheduler.go, over many decisions: how long a project waits for its turn.
pub mod Turn
pub mod Ahead
pub mod Stocked
pub mod Round
pub mod Weights
pub mod Rounds
