-- ===== src/Executor/Step.antt =====
-- src/ail.cpp: the constructor of AilExecutor, advanceOneInstruction and step.
mod Wake
pub mod Labels
unfoldable pub use Wake.{
  contains_event, erase_event, notify_event, event_ready, consume_event, time_ready, wake_state,
  try_wake, wake_blocked_executor_if_ready,
}
use experimental_gcode_parse.Prelude.{
  ℕ, zero, suc, ℤ, leb_ℤ, String, Bool, true, false, ◌||◌, List, [], ◌∷◌, Option, none, some, ◌==◌,
  string_eq, int_eq, if◌then◌else◌, push_at, get_elem?, not,
}
use experimental_gcode_parse.Floats.{FloatOps}
use experimental_gcode_parse.Ail.{
  AilInstruction, linear_move, arc_move, dwell, mcode, rapid_traverse_mode, tool_radius_comp,
  working_plane, tool_select, tool_change, return_boundary, subprogram_call, assign, label, goto_,
  branch_if, sync, LinearMove, LabelPositionMap, source_of, refs_empty,
}
use experimental_gcode_parse.Runtime.{WaitToken, token_eq}
use experimental_gcode_parse.Host.{Event, Trace, Host, Runtime}
use experimental_gcode_parse.Executor.State.{
  AilExecutor, AilExecutorOptions, Machine, ExecutorStatus, ExecutorState, ExecutorBlockedState,
  default_state, add_fault, next_pc, block_on,
}
use experimental_gcode_parse.Executor.Modal.{
  apply_execution_initial_state, make_execution_modal_state, apply_execution_modal_instruction,
}
use experimental_gcode_parse.Executor.Command.{build_modal_update_event}
use experimental_gcode_parse.Executor.Dispatch.{
  DispatchStatus, ExecutionDispatchResult, dispatch_execution_instruction,
}
use experimental_gcode_parse.Executor.Expression.{
  ExpressionEvaluationKind, LinearMoveResolution, resolve_linear_move_instruction,
}
use experimental_gcode_parse.Executor.Goto.{resolve_goto_target}
use experimental_gcode_parse.Executor.Tools.{
  handle_tool_select_at_pc, handle_tool_change_at_pc, active_of,
}
use experimental_gcode_parse.Executor.Subprogram.{call_subprogram, return_from_subprogram}
use experimental_gcode_parse.Executor.Branch.{
  follow, evaluate_branch_at_pc, handle_assign_at_pc, handle_mcode_at_pc, wait_here,
}

-- The two maps that the constructor fills, from the instruction at index `i` on.
unfoldable pub index_labels : ℕ → List AilInstruction → LabelPositionMap → LabelPositionMap
index_labels i [] positions = positions
index_labels i (label source name ∷ rest) positions =
    index_labels (suc i) rest (push_at name i positions)
index_labels i (_ ∷ rest) positions = index_labels (suc i) rest positions

unfoldable pub index_line_number : ℕ → Option ℤ → List (ℤ × List ℕ) → List (ℤ × List ℕ)
index_line_number i none positions = positions
index_line_number i (some n) positions = push_at n i positions

unfoldable pub index_line_numbers : ℕ → List AilInstruction → List (ℤ × List ℕ) → List (ℤ × List ℕ)
unfolding index_line_number source_of
index_line_numbers i [] positions = positions
index_line_numbers i (inst ∷ rest) positions =
    index_line_numbers (suc i) rest (index_line_number i (source_of inst).line_number positions)

-- AilExecutor::AilExecutor
unfoldable pub make_executor : List AilInstruction → AilExecutorOptions → AilExecutor
unfolding index_labels index_line_numbers apply_execution_initial_state
make_executor instructions options = record {
  instructions = instructions;
  label_positions = index_labels 0 instructions [];
  line_number_positions = index_line_numbers 0 instructions [];
  call_stack_frames = [];
  pending_events = [];
  options = options;
  state = apply_execution_initial_state default_state options.initial_state;
  diagnostics = [];
}

-- motionCodeOverrideForDispatch
unfoldable pub motion_code_override_for_dispatch : AilInstruction → Option String
motion_code_override_for_dispatch (linear_move inst) = some inst.opcode
motion_code_override_for_dispatch (arc_move inst) = if inst.clockwise then some "G2" else some "G3"
motion_code_override_for_dispatch _ = none

-- updateMotionCodeAfterDispatch
unfoldable pub update_motion_code : Option String → AilExecutor → AilExecutor
update_motion_code none e = e
update_motion_code (some code) e = record e {
  state = record e.state { motion_code_current = code };
}

-- What advanceOneInstruction makes of a dispatch that was handled; on a dispatch that was not, the
-- instruction has an effect of its own, `other`. The dispatcher reports `blocked` with a token only.
unfoldable pub after_dispatch :
    AilInstruction
    → ExecutionDispatchResult
    → (AilExecutor → AilExecutor)
    → AilExecutor
    → AilExecutor
unfolding update_motion_code motion_code_override_for_dispatch block_on add_fault next_pc source_of
after_dispatch inst result other e =
    let moved = update_motion_code (motion_code_override_for_dispatch inst) e in
    elim result.status [
      | DispatchStatus.progress ↦ next_pc moved
      | DispatchStatus.error ↦ add_fault (source_of inst) result.message e
      | DispatchStatus.not_handled ↦ other e
      | DispatchStatus.blocked ↦ elim result.wait_token [
        | none ↦ other moved
        | some token ↦
            block_on
              (record {
                instruction_index = suc moved.state.pc;
                wait_token = some token;
                retry_at_ms = none;
                tool_change_target_on_resume = none;
              })
              moved
      ]
    ]

-- The instructions that neither the handlers nor the dispatcher take: returns, calls and those
-- that are passed over.
unfoldable pub advance_other : AilInstruction → AilExecutor → AilExecutor
unfolding return_from_subprogram call_subprogram next_pc
advance_other (return_boundary source opcode) e = return_from_subprogram source opcode e
advance_other (subprogram_call call) e = call_subprogram call e
advance_other _ e = next_pc e

-- The dispatch of an instruction with a sink and a runtime. `inst` is the instruction at the program
-- counter and `given` the one that the dispatcher gets.
unfoldable pub dispatch_at_pc : AilInstruction → AilInstruction → Runtime → Machine → Machine
unfolding after_dispatch advance_other dispatch_execution_instruction make_execution_modal_state
    motion_code_override_for_dispatch source_of
dispatch_at_pc inst given runtime m =
    let modal =
      make_execution_modal_state m.executor.state (motion_code_override_for_dispatch inst) in
    let (result, after) =
      dispatch_execution_instruction given (source_of given).line modal runtime m.trace in
    record { executor = after_dispatch inst result (advance_other inst) m.executor; trace = after }

unfoldable pub after_axes : LinearMove → LinearMoveResolution → Runtime → Machine → Machine
unfolding wait_here add_fault dispatch_at_pc
after_axes inst resolution runtime m =
    let go_on = dispatch_at_pc (linear_move inst) (linear_move resolution.instruction) runtime m in
    elim resolution.kind [
      | ExpressionEvaluationKind.error ↦ record m {
        executor = add_fault inst.source resolution.error_message m.executor;
      }
      | ExpressionEvaluationKind.pending ↦ elim resolution.wait_token [
        | none ↦ go_on
        | some token ↦ record m { executor = wait_here (some token) none m.executor }
      ]
      | _ ↦ go_on
    ]

-- The branch of advanceOneInstruction on a linear move with sink and runtime.
unfoldable pub advance_linear_move : LinearMove → Runtime → Machine → Machine
unfolding after_axes dispatch_at_pc resolve_linear_move_instruction
advance_linear_move inst runtime m =
    if refs_empty inst.target_system_variables
    then dispatch_at_pc (linear_move inst) (linear_move inst) runtime m
    else (let (resolution, after) = resolve_linear_move_instruction inst (some runtime) m.trace in
        after_axes inst resolution runtime (record m { trace = after }))

-- What follows where no handler has taken the instruction.
unfoldable pub advance_rest : AilInstruction → Option Runtime → Machine → Machine
unfolding advance_linear_move dispatch_at_pc advance_other
advance_rest inst none m = record m { executor = advance_other inst m.executor }
advance_rest (linear_move inst) (some runtime) m = advance_linear_move inst runtime m
advance_rest inst (some runtime) m = dispatch_at_pc inst inst runtime m

-- The sink hears of a modal update; without a sink nothing is reported.
unfoldable pub report_modal_update : AilInstruction → Option Runtime → Trace → Trace
unfolding build_modal_update_event
report_modal_update inst none trace = trace
report_modal_update inst (some runtime) trace =
    Event.modal_update (build_modal_update_event inst) ∷ trace

unfoldable pub advance_modal : AilInstruction → Option Runtime → Machine → Machine
unfolding apply_execution_modal_instruction report_modal_update next_pc advance_rest
advance_modal inst runtime m = elim (apply_execution_modal_instruction inst m.executor.state) [
  | some state ↦ record {
    executor = next_pc (record m.executor { state = state });
    trace = report_modal_update inst runtime m.trace;
  }
  | none ↦ advance_rest inst runtime m
]

unfoldable pub advance_instruction : FloatOps → Host → AilInstruction → Machine → Machine
unfolding follow resolve_goto_target evaluate_branch_at_pc handle_assign_at_pc handle_mcode_at_pc
    handle_tool_select_at_pc handle_tool_change_at_pc advance_modal
advance_instruction ops host (goto_ goto) m = record m {
  executor =
      follow goto.source "unresolved goto target: " goto
        (resolve_goto_target m.executor.state.pc goto m.executor);
}
advance_instruction ops host (branch_if branch) m = evaluate_branch_at_pc ops host branch m
advance_instruction ops host (assign inst) m = handle_assign_at_pc ops host.runtime inst m
advance_instruction ops host (mcode inst) m = record m {
  executor = handle_mcode_at_pc inst m.executor;
}
advance_instruction ops host (tool_select inst) m = handle_tool_select_at_pc inst host.runtime m
advance_instruction ops host (tool_change source timing) m =
    handle_tool_change_at_pc source host.runtime m
advance_instruction ops host inst m = advance_modal inst host.runtime m

unfoldable pub complete : AilExecutor → AilExecutor
complete e = record e { state = record e.state { status = ExecutorStatus.completed } }

-- AilExecutor::advanceOneInstruction, which always returns true.
unfoldable pub advance_one_instruction : FloatOps → Host → Machine → Machine
unfolding advance_instruction complete
advance_one_instruction ops host m = elim (get_elem? m.executor.instructions m.executor.state.pc) [
  | none ↦ record m { executor = complete m.executor }
  | some inst ↦ advance_instruction ops host inst m
]

unfoldable pub step_awake : FloatOps → Host → Option AilExecutor → Machine → Machine × Bool
unfolding advance_one_instruction
step_awake ops host none m = (m, false)
step_awake ops host (some e) m =
    (advance_one_instruction ops host (record m { executor = e }), true)

-- AilExecutor::step, every overload: they differ in the host.
unfoldable pub step : FloatOps → ℤ → Host → Machine → Machine × Bool
unfolding step_awake wake_blocked_executor_if_ready
step ops now_ms host m = elim m.executor.state.status [
  | ExecutorStatus.fault ↦ (m, false)
  | ExecutorStatus.completed ↦ (m, false)
  | _ ↦ step_awake ops host (wake_blocked_executor_if_ready now_ms m.executor) m
]
