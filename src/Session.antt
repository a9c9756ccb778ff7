-- ===== src/Session.antt =====
-- src/execution_session.cpp (class ExecutionSession).
pub mod State
pub mod Control
pub mod Lines
pub mod Input
pub mod Syncing
pub mod Rejection
pub mod Suspension
pub mod Resumption
