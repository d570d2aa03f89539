-- ===== src/Internal.antt =====
-- crates/sdk/src/internal.rs: how events and actions are built, named and summarised.
pub mod Events
pub mod Actions
pub mod Names
pub mod Summary
pub mod Status
pub mod Trace
pub mod Defaults
