-- ===== src/Proto.antt =====
-- The messages of crates/proto, which a build generates from the submodule durabletask-protobuf.
-- They are plain data: every variant that executor.rs and internal.rs match on is a constructor, and
-- a message has the fields that the SDK names. A field that holds an `OrchestrationStatus` cast to
-- `i32` holds the status here.
mod Event
mod Action
mod Work
mod Client
pub use Event.*
pub use Action.*
pub use Work.*
pub use Client.*
