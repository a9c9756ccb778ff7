-- ===== src/Executor.antt =====
-- The executor of src/ail.cpp (class AilExecutor) and the files that it calls:
-- src/execution_modal_state.cpp, src/execution_command_builder.cpp and
-- src/execution_instruction_dispatcher.cpp.
pub mod State
pub mod Modal
pub mod Command
pub mod Dispatch
pub mod Expression
pub mod Goto
pub mod Tools
pub mod Subprogram
pub mod Branch
pub mod Step
pub mod Waiting
pub mod Targets
pub mod Straight
pub mod Invariant
