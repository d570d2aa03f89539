-- ===== src/Tests.antt =====
-- Concrete hosts, orchestrators and histories, and the theorems at them.
pub mod Host
pub mod Executor
mod Replay
mod Edge
mod Signals
mod Internal
mod Worker
mod SubOrchestrator
mod Services
mod Examples
mod Parallel
mod Trace
mod Stale
mod Reactive
