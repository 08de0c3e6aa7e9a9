-- ===== src/Recovery.antt =====
-- crates/orchestrator/src/recovery.rs: what is done on a restart with an issue found mid-phase.
pub mod Plan
pub mod Workers
pub mod Execute
pub mod Files
