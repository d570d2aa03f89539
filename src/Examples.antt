-- ===== src/Examples.antt =====
-- Orchestrators of examples/src, with the scripts that they are.
pub mod Ended
pub mod Sequence
pub mod Signals
pub mod SubSequence
pub mod SubOrchestrator
pub mod Parallel
