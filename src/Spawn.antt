-- ===== src/Spawn.antt =====
-- crates/orchestrator/src/spawn.rs: the command line of a sandboxed worker. Resolving the host's
-- binaries, the pane and the process are not modelled.
pub mod Mounts
pub mod Sandbox
pub mod Surface
pub mod Shell
pub mod Tests
