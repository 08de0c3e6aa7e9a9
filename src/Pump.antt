-- ===== src/Pump.antt =====
-- crates/orchestrator/src/pump.rs: the build pump.
pub mod Labels
pub mod Gate
pub mod Site
pub mod Sites
pub mod Outcomes
pub mod Steps
pub mod Implement
pub mod Review
pub mod Merge
pub mod Land
pub mod Drive
pub mod Tick
pub mod Tests
