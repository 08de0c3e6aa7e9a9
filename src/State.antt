-- ===== src/State.antt =====
-- crates/orchestrator/src/state.rs
pub mod Enums
pub mod Rows
pub mod Db
pub mod Schema
pub mod Issues
pub mod Workers
pub mod Ledger
pub mod Tests
