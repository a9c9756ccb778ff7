-- ===== src/Executor/Invariant.antt =====
-- src/ail.cpp: what holds of an executor between two calls of its methods.
pub mod Basic
pub mod Tools
pub mod Jumps
pub mod Branches
pub mod Calls
pub mod Steps
pub mod Reachable
use experimental_gcode_parse.Prelude.{
  ℕ, ℤ, pos, String, ◌≡◌, ◌≤◌, ◌<◌, true, false, List, length, All, Option, none, some, lookup_all,
  string_eq, int_eq, leb_ℤ,
}
use experimental_gcode_parse.Ail.{AilInstruction, LabelPositionMap}
use experimental_gcode_parse.Executor.State.{
  AilExecutor, ExecutorState, ExecutorStatus, ExecutorBlockedState, SubprogramCallFrame,
}

-- The maps name instructions of the program.
pub record IsIndexed (n : ℕ) (labels : LabelPositionMap) (numbers : List (ℤ × List ℕ))
    : Type 0 where
  pub label_at : (name : String) → All (λ p. p < n) (lookup_all name labels)
  pub number_at : (k : ℤ) → All (λ p. p < n) (lookup_all k numbers)

-- A frame returns to a place in the program or to its end, repeats from an instruction of it, and
-- has at least one round left.
abbrev pub IsFrame : ℕ → SubprogramCallFrame → Type 0
IsFrame n f = (f.return_pc ≤ n) × (f.target_pc < n) × (leb_ℤ f.remaining_repeats (pos 0) ≡ false)

-- The status says which of the optional parts are there.
abbrev pub Agrees : ℕ → ExecutorStatus → Option ExecutorBlockedState → Option String → Type 0
Agrees n ExecutorStatus.ready none none = Unit
Agrees n ExecutorStatus.blocked (some suspension) none = suspension.instruction_index ≤ n
Agrees n ExecutorStatus.completed none none = Unit
Agrees n ExecutorStatus.fault none (some message) = Unit
Agrees n _ _ _ = ⊥

pub record IsControlled (n : ℕ) (state : ExecutorState) : Type 0 where
  pub pc_le : state.pc ≤ n
  pub agrees : Agrees n state.status state.blocked state.fault_message

-- The program counter and the indices kept for later lie in the program or at its end, the depth is
-- that of the call stack, and status, suspension and fault message agree.
pub record IsValid (e : AilExecutor) : Type 0 where
  pub indexed : IsIndexed (length e.instructions) e.label_positions e.line_number_positions
  pub frames : All (IsFrame (length e.instructions)) e.call_stack_frames
  pub depth : e.state.call_stack_depth ≡ length e.call_stack_frames
  pub controlled : IsControlled (length e.instructions) e.state

-- What a handler may rely on: the executor is at an instruction, and neither blocked nor stopped.
pub record IsRunning (e : AilExecutor) : Type 0 where
  pub indexed : IsIndexed (length e.instructions) e.label_positions e.line_number_positions
  pub frames : All (IsFrame (length e.instructions)) e.call_stack_frames
  pub depth : e.state.call_stack_depth ≡ length e.call_stack_frames
  pub pc_lt : e.state.pc < length e.instructions
  pub ready : e.state.status ≡ ExecutorStatus.ready
  pub not_blocked : e.state.blocked ≡ none
  pub not_faulted : e.state.fault_message ≡ none
