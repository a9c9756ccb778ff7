-- ===== src/Examples.antt =====
-- Concrete inputs, tests of the definitions, and instances of the theorems.
pub mod Fixtures
pub mod Executor
pub mod Waiting
pub mod Programs
pub mod Engine
pub mod Session
pub mod Lines
pub mod Lowering
pub mod Rules
pub mod Machine
