-- ===== src/Executor/Invariant/Steps.antt =====
-- src/ail.cpp: the constructor of AilExecutor establishes the invariant, and notifyEvent and step
-- keep it.
use experimental_gcode_parse.Prelude.{
  suc, ℤ, String, ◌≡◌, refl, ◌<◌, ◌||◌, length, Option, none, some, arith, Option-cases, Bool-cases,
  inl, inr, get_elem?, get_elem?-lt,
}
use experimental_gcode_parse.Floats.{FloatOps}
use experimental_gcode_parse.Ail.{
  AilInstruction, linear_move, mcode, rapid_traverse_mode, tool_radius_comp, working_plane,
  tool_select, tool_change, return_boundary, subprogram_call, assign, goto_, branch_if, LinearMove,
  source_of, refs_empty,
}
use experimental_gcode_parse.Runtime.{WaitToken}
use experimental_gcode_parse.Host.{Host, Runtime}
use experimental_gcode_parse.Executor.State.{
  AilExecutor, ExecutorStatus, ExecutorBlockedState, Machine,
}
use experimental_gcode_parse.Executor.Modal.{make_execution_modal_state}
use experimental_gcode_parse.Executor.Dispatch.{
  ExecutionDispatchResult, dispatch_execution_instruction,
}
use experimental_gcode_parse.Executor.Expression.{
  LinearMoveResolution, resolve_linear_move_instruction,
}
use experimental_gcode_parse.Executor.Step.{
  try_wake, wake_state, wake_blocked_executor_if_ready, update_motion_code,
  motion_code_override_for_dispatch, after_dispatch, advance_other, dispatch_at_pc, after_axes,
  advance_linear_move, advance_rest, advance_modal, advance_instruction, advance_one_instruction,
  step_awake, step, complete, event_ready, time_ready,
}
use experimental_gcode_parse.Executor.Goto.{resolve_goto_target}
use experimental_gcode_parse.Executor.Invariant.{IsValid, IsRunning}
use experimental_gcode_parse.Executor.Invariant.Basic.{
  next_pc-IsValid, block_on-IsValid, add_fault-IsValid,
}
use experimental_gcode_parse.Executor.Invariant.Tools.{
  handle_tool_select-IsValid, handle_tool_change-IsValid,
}
use experimental_gcode_parse.Executor.Invariant.Jumps.{
  follow-IsValid, resolve_goto_target-IsResolved,
}
use experimental_gcode_parse.Executor.Invariant.Branches.{
  wait_here-IsValid, evaluate_branch-IsValid, handle_assign-IsValid, handle_mcode-IsValid,
}
use experimental_gcode_parse.Executor.Invariant.Calls.{
  return_from_subprogram-IsValid, call_subprogram-IsValid,
}

update_motion_code-IsRunning :
    (code : Option String) {e : AilExecutor} → IsRunning e → IsRunning (update_motion_code code e)
unfolding update_motion_code
update_motion_code-IsRunning none v = v
update_motion_code-IsRunning (some code) v = record {
  indexed = v.indexed;
  frames = v.frames;
  depth = v.depth;
  pc_lt = v.pc_lt;
  ready = v.ready;
  not_blocked = v.not_blocked;
  not_faulted = v.not_faulted;
}

advance_other-IsValid :
    (inst : AilInstruction) {e : AilExecutor} → IsRunning e → IsValid (advance_other inst e)
unfolding advance_other
advance_other-IsValid (return_boundary source opcode) v =
    return_from_subprogram-IsValid source opcode v
advance_other-IsValid (subprogram_call call) v = call_subprogram-IsValid call v
advance_other-IsValid _ v = next_pc-IsValid v

after_dispatch-IsValid :
    (inst : AilInstruction) (result : ExecutionDispatchResult) {e : AilExecutor}
    → IsRunning e
    → IsValid (after_dispatch inst result (advance_other inst) e)
unfolding after_dispatch
after_dispatch-IsValid inst result {e} v =
    let moved = update_motion_code (motion_code_override_for_dispatch inst) e in
    let vm = update_motion_code-IsRunning (motion_code_override_for_dispatch inst) v in
    ground (
      arith,
      next_pc-IsValid vm,
      add_fault-IsValid v (source_of inst) result.message,
      advance_other-IsValid inst v,
      advance_other-IsValid inst vm,
      λ (token : WaitToken).
          block_on-IsValid vm
            (record {
              instruction_index = suc moved.state.pc;
              wait_token = some token;
              retry_at_ms = none;
              tool_change_target_on_resume = none;
            })
            vm.pc_lt,
    )

dispatch_at_pc-IsValid :
    (inst given : AilInstruction) (runtime : Runtime) (m : Machine)
    → IsRunning m.executor
    → IsValid (dispatch_at_pc inst given runtime m).executor
unfolding dispatch_at_pc
dispatch_at_pc-IsValid inst given runtime m v =
    after_dispatch-IsValid inst
      (dispatch_execution_instruction given (source_of given).line
        (make_execution_modal_state m.executor.state (motion_code_override_for_dispatch inst))
        runtime m.trace).0
      v

after_axes-IsValid :
    (inst : LinearMove) (resolution : LinearMoveResolution) (runtime : Runtime) (m : Machine)
    → IsRunning m.executor
    → IsValid (after_axes inst resolution runtime m).executor
unfolding after_axes
after_axes-IsValid inst resolution runtime m v = ground (
  arith,
  dispatch_at_pc-IsValid (linear_move inst) (linear_move resolution.instruction) runtime m v,
  add_fault-IsValid v inst.source resolution.error_message,
  λ (token : WaitToken). wait_here-IsValid (some token) none v,
)

advance_linear_move-IsValid :
    (inst : LinearMove) (runtime : Runtime) (m : Machine)
    → IsRunning m.executor
    → IsValid (advance_linear_move inst runtime m).executor
unfolding advance_linear_move
advance_linear_move-IsValid inst runtime m v =
    elim (Bool-cases (refs_empty inst.target_system_variables)) [
      | inl none_there ↦
          rw none_there (dispatch_at_pc-IsValid (linear_move inst) (linear_move inst) runtime m v)
      | inr some_there ↦ rw some_there (
          let (resolution, after) = resolve_linear_move_instruction inst (some runtime) m.trace in
          after_axes-IsValid inst resolution runtime (record m { trace = after }) v)
    ]

advance_rest-IsValid :
    (inst : AilInstruction) (runtime : Option Runtime) (m : Machine)
    → IsRunning m.executor
    → IsValid (advance_rest inst runtime m).executor
unfolding advance_rest
advance_rest-IsValid inst none m v = advance_other-IsValid inst v
advance_rest-IsValid (linear_move inst) (some runtime) m v =
    advance_linear_move-IsValid inst runtime m v
advance_rest-IsValid inst (some runtime) m v = dispatch_at_pc-IsValid inst inst runtime m v

-- The modes of a state play no part in the invariant.
advance_modal-IsValid :
    (inst : AilInstruction) (runtime : Option Runtime) (m : Machine)
    → IsRunning m.executor
    → IsValid (advance_modal inst runtime m).executor
unfolding advance_modal
advance_modal-IsValid (rapid_traverse_mode s mode) runtime m v = record {
  indexed = v.indexed;
  frames = v.frames;
  depth = v.depth;
  controlled = ground arith;
}
advance_modal-IsValid (tool_radius_comp s mode) runtime m v = record {
  indexed = v.indexed;
  frames = v.frames;
  depth = v.depth;
  controlled = ground arith;
}
advance_modal-IsValid (working_plane s plane) runtime m v = record {
  indexed = v.indexed;
  frames = v.frames;
  depth = v.depth;
  controlled = ground arith;
}
advance_modal-IsValid inst runtime m v = advance_rest-IsValid inst runtime m v

advance_instruction-IsValid :
    (ops : FloatOps) (host : Host) (inst : AilInstruction) (m : Machine)
    → IsRunning m.executor
    → IsValid (advance_instruction ops host inst m).executor
unfolding advance_instruction
advance_instruction-IsValid ops host (goto_ goto) m v =
    follow-IsValid goto.source "unresolved goto target: " goto
      (resolve_goto_target m.executor.state.pc goto m.executor)
      (resolve_goto_target-IsResolved m.executor.state.pc goto v)
advance_instruction-IsValid ops host (branch_if branch) m v =
    evaluate_branch-IsValid ops host branch m v
advance_instruction-IsValid ops host (assign inst) m v =
    handle_assign-IsValid ops host.runtime inst m v
advance_instruction-IsValid ops host (mcode inst) m v = handle_mcode-IsValid inst v
advance_instruction-IsValid ops host (tool_select inst) m v =
    handle_tool_select-IsValid inst host.runtime m v
advance_instruction-IsValid ops host (tool_change source timing) m v =
    handle_tool_change-IsValid source host.runtime m v
advance_instruction-IsValid ops host inst m v = advance_modal-IsValid inst host.runtime m v

running :
    {e : AilExecutor}
    → IsValid e
    → e.state.status ≡ ExecutorStatus.ready
    → e.state.pc < length e.instructions
    → IsRunning e
running v r h = record {
  indexed = v.indexed;
  frames = v.frames;
  depth = v.depth;
  pc_lt = h;
  ready = r;
  not_blocked = ground arith;
  not_faulted = ground arith;
}

complete-IsValid :
    {e : AilExecutor} → IsValid e → e.state.status ≡ ExecutorStatus.ready → IsValid (complete e)
unfolding complete
complete-IsValid v r = record {
  indexed = v.indexed;
  frames = v.frames;
  depth = v.depth;
  controlled = ground arith;
}

advance_one-IsValid :
    (ops : FloatOps) (host : Host) (m : Machine)
    → IsValid m.executor
    → m.executor.state.status ≡ ExecutorStatus.ready
    → IsValid (advance_one_instruction ops host m).executor
unfolding advance_one_instruction
advance_one-IsValid ops host m v r =
    elim (Option-cases (get_elem? m.executor.instructions m.executor.state.pc)) [
      | inl q ↦ rw (q, advance_one_instruction) (complete-IsValid v r)
      | inr (inst, q) ↦
          rw (q, advance_one_instruction)
            (advance_instruction-IsValid ops host inst m
              (running v r (get_elem?-lt m.executor.instructions m.executor.state.pc q)))
    ]

-- The executor that is woken up, if any, is valid and ready.
abbrev IsAwake : Option AilExecutor → Type 0
IsAwake none = Unit
IsAwake (some e) = IsValid e × (e.state.status ≡ ExecutorStatus.ready)

try_wake-IsAwake :
    (now_ms : ℤ) (suspension : ExecutorBlockedState) {e : AilExecutor}
    → e.state.status ≡ ExecutorStatus.blocked
    → e.state.blocked ≡ some suspension
    → IsValid e
    → IsAwake (try_wake now_ms suspension e)
unfolding try_wake wake_state
try_wake-IsAwake now_ms suspension {e} s b v =
    elim (Bool-cases (
      event_ready suspension.wait_token e.pending_events
      || time_ready now_ms suspension.retry_at_ms)) [
        | inl go ↦ rw go (
          record {
            indexed = v.indexed;
            frames = v.frames;
            depth = ground (arith, v.depth);
            controlled = ground (arith, v.controlled.agrees);
          },
          ground arith,
        )
        | inr stay ↦ rw stay tt
      ]

wake_blocked-IsAwake :
    (now_ms : ℤ) (o : Option ExecutorBlockedState) {e : AilExecutor}
    → e.state.status ≡ ExecutorStatus.blocked
    → e.state.blocked ≡ o
    → IsValid e
    → IsAwake (wake_blocked_executor_if_ready now_ms e)
unfolding wake_blocked_executor_if_ready
wake_blocked-IsAwake now_ms none s b v = absurd (ground arith)
wake_blocked-IsAwake now_ms (some suspension) s b v =
    rw (s, b, wake_blocked_executor_if_ready) (try_wake-IsAwake now_ms suspension s b v)

step_awake-IsValid :
    (ops : FloatOps) (host : Host) (o : Option AilExecutor) (m : Machine)
    → IsValid m.executor
    → IsAwake o
    → IsValid (step_awake ops host o m).0.executor
unfolding step_awake
step_awake-IsValid ops host none m v w = v
step_awake-IsValid ops host (some e) m v (w, r) =
    advance_one-IsValid ops host (record m { executor = e }) w r

step_from :
    (ops : FloatOps) (now_ms : ℤ) (host : Host) (m : Machine) (status : ExecutorStatus)
    → m.executor.state.status ≡ status
    → IsValid m.executor
    → IsValid (step ops now_ms host m).0.executor
unfolding step wake_blocked_executor_if_ready
step_from ops now_ms host m ExecutorStatus.fault q v = rw (q, step) v
step_from ops now_ms host m ExecutorStatus.completed q v = rw (q, step) v
step_from ops now_ms host m ExecutorStatus.ready q v =
    rw (q, step)
      (step_awake-IsValid ops host (wake_blocked_executor_if_ready now_ms m.executor) m v
        (ready_awake m.executor q v))
  where
    ready_awake :
        (e : AilExecutor)
        → e.state.status ≡ ExecutorStatus.ready
        → IsValid e
        → IsAwake (wake_blocked_executor_if_ready now_ms e)
    ready_awake e q v = rw (q, wake_blocked_executor_if_ready) (v, q)
step_from ops now_ms host m ExecutorStatus.blocked q v =
    rw (q, step)
      (step_awake-IsValid ops host (wake_blocked_executor_if_ready now_ms m.executor) m v
        (wake_blocked-IsAwake now_ms m.executor.state.blocked q refl v))

-- Every call of step, with or without a sink and a runtime and whatever those answer, keeps the
-- executor valid: the program counter, the index to resume at and the frames stay in the program or
-- at its end, the depth is the number of frames, every frame has a round left, and the executor is
-- blocked exactly with a suspension and faulted exactly with a message.
pub step-IsValid :
    (ops : FloatOps) (now_ms : ℤ) (host : Host) (m : Machine)
    → IsValid m.executor
    → IsValid (step ops now_ms host m).0.executor
step-IsValid ops now_ms host m v = step_from ops now_ms host m m.executor.state.status refl v
