-- ===== src/Engine.antt =====
-- src/streaming_execution_engine.cpp (class StreamingExecutionEngine).
pub mod Lines
pub mod State
pub mod Advance
pub mod Pending
pub mod Control
pub mod Input
pub mod Resuming
pub mod Invariant
pub mod Termination
pub mod Carrying
pub mod Suspension
