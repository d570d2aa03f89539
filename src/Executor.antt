-- ===== src/Executor.antt =====
-- crates/sdk/src/executor.rs: replaying a history against an orchestrator.
pub mod Context
pub mod Poll
pub mod Event
pub mod Execute
pub mod Activity
pub mod Invariant
pub mod Marked
pub mod Replay
pub mod Ignored
pub mod Clock
pub mod Signals
pub mod Unregistered
pub mod Quiet
