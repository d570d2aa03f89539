-- ===== src/Types.antt =====
-- crates/sdk/src/types.rs: what orchestrators and activities are given and what they are.
pub mod Code
pub mod Context
pub mod Async
pub mod Function
pub mod Activity
