-- ===== src/Executor/Straight.antt =====
-- src/ail.cpp: outside of subprograms, the instructions that neither jump nor call move the program
-- counter on by one, unless the executor stops at them, as it does at a return, or waits.
pub mod Tools
pub mod Motion
pub mod Step
use experimental_gcode_parse.Prelude.{
  ℕ, suc, ℤ, String, ◌≡◌, refl, ap, ◌∙◌, List, [], ◌∷◌, Option, none, some, arith, Bool, if_either,
  Bool-cases, inl, inr, Option-cases, true, get_elem?,
}
use experimental_gcode_parse.Floats.{FloatOps}
use experimental_gcode_parse.Lowering.{SourceInfo, ErrorPolicy}
use experimental_gcode_parse.Ail.{
  AilInstruction, linear_move, goto_, branch_if, subprogram_call, return_boundary, mcode, assign,
  tool_select, tool_change, rapid_traverse_mode, tool_radius_comp, working_plane, arc_move, dwell,
  label, sync, LinearMove, ToolSelectionState, ToolSelectionResolution, MCode, Assign, ToolSelect,
  ToolSelectionResolutionKind, ToolActionTiming, source_of, refs_empty,
}
use experimental_gcode_parse.Runtime.{WaitToken, RuntimeResult}
use experimental_gcode_parse.Host.{Event, Host, Runtime}
use experimental_gcode_parse.Executor.State.{
  AilExecutor, ExecutorStatus, ExecutorBlockedState, Machine, add_fault, add_warning, next_pc,
  block_on,
}
use experimental_gcode_parse.Executor.Modal.{
  make_execution_modal_state, apply_execution_modal_instruction,
}
use experimental_gcode_parse.Executor.Expression.{
  ExpressionEvaluation, LinearMoveResolution, resolve_linear_move_instruction,
  evaluate_expression_node,
}
use experimental_gcode_parse.Executor.Dispatch.{
  ExecutionDispatchResult, dispatch_execution_instruction,
}
use experimental_gcode_parse.Executor.Tools.{
  complete_tool_change, after_tool_change, tool_change_command, resolve_tool_selection,
  unresolved_detail, dispatch_tool_change_at_pc, warn_substituted, refuse_selection, refuse_change,
  handle_tool_select_at_pc, change_to_pending, change_without_tool, handle_tool_change_at_pc,
  set_pending,
}
use experimental_gcode_parse.Executor.Branch.{
  wait_here, after_assign_value, handle_assign_at_pc, handle_mcode_at_pc,
}
use experimental_gcode_parse.Executor.Step.{
  after_dispatch, advance_other, update_motion_code, motion_code_override_for_dispatch,
  dispatch_at_pc, after_axes, advance_linear_move, advance_rest, advance_modal, advance_instruction,
  step, step_awake, wake_blocked_executor_if_ready, advance_one_instruction, complete,
}

-- An instruction that neither jumps nor calls; a return is one too.
abbrev pub IsStraight : AilInstruction → Type 0
IsStraight (goto_ goto) = ⊥
IsStraight (branch_if branch) = ⊥
IsStraight (subprogram_call call) = ⊥
IsStraight _ = Unit

-- The executor is at work outside of subprograms: it is ready, waits for nothing, and has no call to
-- return from.
abbrev pub IsAtWork : AilExecutor → Type 0
IsAtWork e =
    (e.state.status ≡ ExecutorStatus.ready) × (e.state.blocked ≡ none) × (e.call_stack_frames ≡ [])

-- From the first executor to the second the program and the calls stay; if the second is at work it stands one
-- instruction further on, and if it waits it does so without a time.
pub record Moves (e f : AilExecutor) : Type 0 where
  pub same : f.instructions ≡ e.instructions
  pub frames : f.call_stack_frames ≡ e.call_stack_frames
  pub further : f.state.status ≡ ExecutorStatus.ready → f.state.pc ≡ suc e.state.pc
  pub unblocked : f.state.status ≡ ExecutorStatus.ready → f.state.blocked ≡ none
  pub untimed : (s : ExecutorBlockedState) → f.state.blocked ≡ some s → s.retry_at_ms ≡ none

-- An executor that differs in its messages and tools only.
pub record IsSame (e f : AilExecutor) : Type 0 where
  pub same : f.instructions ≡ e.instructions
  pub frames : f.call_stack_frames ≡ e.call_stack_frames
  pub here : f.state.pc ≡ e.state.pc
  pub status : f.state.status ≡ e.state.status
  pub blocked : f.state.blocked ≡ e.state.blocked

pub Moves-from :
    {e f g : AilExecutor} → IsSame e f → (IsAtWork f → Moves f g) → IsAtWork e → Moves e g
Moves-from v h (s, b, c) =
    let m = h (v.status ∙ s, v.blocked ∙ b, v.frames ∙ c) in
    record {
      same = m.same ∙ v.same;
      frames = m.frames ∙ v.frames;
      further = λ q. m.further q ∙ ap suc v.here;
      unblocked = m.unblocked;
      untimed = m.untimed;
    }
