-- ===== src/Executor/Straight/Motion.antt =====
-- src/ail.cpp: motion and dwell move the program counter on by one, stop or wait.
use mathlib.Core.Path.{subst}
use experimental_gcode_parse.Prelude.{
  suc, String, ◌+++◌, sym, refl, Option, none, some, arith, Bool-cases, inl, inr,
}
use experimental_gcode_parse.Lowering.{SourceInfo}
use experimental_gcode_parse.Ail.{
  AilInstruction, linear_move, subprogram_call, return_boundary, LinearMove, source_of, refs_empty,
}
use experimental_gcode_parse.Runtime.{WaitToken}
use experimental_gcode_parse.Host.{Runtime}
use experimental_gcode_parse.Executor.State.{AilExecutor, Machine, add_fault, next_pc, block_on}
use experimental_gcode_parse.Executor.Modal.{make_execution_modal_state}
use experimental_gcode_parse.Executor.Expression.{
  LinearMoveResolution, resolve_linear_move_instruction,
}
use experimental_gcode_parse.Executor.Dispatch.{
  ExecutionDispatchResult, dispatch_execution_instruction,
}
use experimental_gcode_parse.Executor.Branch.{wait_here}
use experimental_gcode_parse.Executor.Subprogram.{return_to, return_from_subprogram}
use experimental_gcode_parse.Executor.Step.{
  after_dispatch, advance_other, update_motion_code, motion_code_override_for_dispatch,
  dispatch_at_pc, after_axes, advance_linear_move, advance_rest,
}
use experimental_gcode_parse.Executor.Straight.{IsStraight, IsAtWork, Moves, IsSame, Moves-from}

pub fault-Moves :
    (source : SourceInfo) (message : String) (e : AilExecutor)
    → IsAtWork e
    → Moves e (add_fault source message e)
unfolding add_fault
fault-Moves source message e (s, b, c) = record {
  same = refl;
  frames = refl;
  further = λ h. absurd (ground arith);
  unblocked = λ h. b;
  untimed = λ x h. absurd (ground (arith, b, h));
}

pub wait-Moves :
    (o : Option WaitToken) (e : AilExecutor) → IsAtWork e → Moves e (wait_here o none e)
unfolding wait_here
wait-Moves o e (s, b, c) = record {
  same = refl;
  frames = refl;
  further = λ h. absurd (ground arith);
  unblocked = λ h. absurd (ground arith);
  untimed = λ x h. ground (arith, h);
}

pub next_pc-Moves : (e : AilExecutor) → IsAtWork e → Moves e (next_pc e)
unfolding next_pc
next_pc-Moves e (s, b, c) = record {
  same = refl;
  frames = refl;
  further = λ h. refl;
  unblocked = λ h. b;
  untimed = λ x h. absurd (ground (arith, b, h));
}

-- A return outside of subprograms stops the executor.
return-Moves :
    (source : SourceInfo) (opcode : String) (e : AilExecutor)
    → IsAtWork e
    → Moves e (return_from_subprogram source opcode e)
unfolding return_from_subprogram return_to
return-Moves source opcode e (s, b, c) =
    subst (λ frames. Moves e (return_to source opcode frames e)) (sym c)
      (fault-Moves source ("return boundary encountered with empty call stack: " +++ opcode) e
        (s, b, c))

pub advance_other-Moves :
    (inst : AilInstruction) (e : AilExecutor)
    → IsStraight inst
    → IsAtWork e
    → Moves e (advance_other inst e)
unfolding advance_other
advance_other-Moves (return_boundary source opcode) e i w = return-Moves source opcode e w
advance_other-Moves (subprogram_call call) e i w = absurd i
advance_other-Moves _ e i w = next_pc-Moves e w

pub moved-IsSame : (code : Option String) (e : AilExecutor) → IsSame e (update_motion_code code e)
unfolding update_motion_code
moved-IsSame none e = record {
  same = refl;
  frames = refl;
  here = refl;
  status = refl;
  blocked = refl;
}
moved-IsSame (some code) e = record {
  same = refl;
  frames = refl;
  here = refl;
  status = refl;
  blocked = refl;
}

pub motion_wait-Moves :
    (token : WaitToken) (e : AilExecutor)
    → IsAtWork e
    → Moves e (
        block_on
          (record {
            instruction_index = suc e.state.pc;
            wait_token = some token;
            retry_at_ms = none;
            tool_change_target_on_resume = none;
          })
          e)
unfolding block_on
motion_wait-Moves token e (s, b, c) = record {
  same = refl;
  frames = refl;
  further = λ h. absurd (ground arith);
  unblocked = λ h. absurd (ground arith);
  untimed = λ x h. ground (arith, h);
}

pub after_dispatch-Moves :
    (inst : AilInstruction) (result : ExecutionDispatchResult) (e : AilExecutor)
    → IsStraight inst
    → IsAtWork e
    → Moves e (after_dispatch inst result (advance_other inst) e)
unfolding after_dispatch
after_dispatch-Moves inst result e i w =
    let moved = update_motion_code (motion_code_override_for_dispatch inst) e in
    let v = moved-IsSame (motion_code_override_for_dispatch inst) e in
    ground (
      arith,
      Moves-from v (next_pc-Moves moved) w,
      fault-Moves (source_of inst) result.message e w,
      advance_other-Moves inst e i w,
      Moves-from v (advance_other-Moves inst moved i) w,
      λ (token : WaitToken). Moves-from v (motion_wait-Moves token moved) w,
    )

pub dispatch_at_pc-Moves :
    (inst given : AilInstruction) (runtime : Runtime) (m : Machine)
    → IsStraight inst
    → IsAtWork m.executor
    → Moves m.executor (dispatch_at_pc inst given runtime m).executor
unfolding dispatch_at_pc
dispatch_at_pc-Moves inst given runtime m i w =
    after_dispatch-Moves inst
      (dispatch_execution_instruction given (source_of given).line
        (make_execution_modal_state m.executor.state (motion_code_override_for_dispatch inst))
        runtime m.trace).0
      m.executor i w

pub after_axes-Moves :
    (inst : LinearMove) (resolution : LinearMoveResolution) (runtime : Runtime) (m : Machine)
    → IsAtWork m.executor
    → Moves m.executor (after_axes inst resolution runtime m).executor
unfolding after_axes
after_axes-Moves inst resolution runtime m w = ground (
  arith,
  dispatch_at_pc-Moves (linear_move inst) (linear_move resolution.instruction) runtime m tt w,
  fault-Moves inst.source resolution.error_message m.executor w,
  λ (token : WaitToken). wait-Moves (some token) m.executor w,
)

pub advance_linear_move-Moves :
    (inst : LinearMove) (runtime : Runtime) (m : Machine)
    → IsAtWork m.executor
    → Moves m.executor (advance_linear_move inst runtime m).executor
unfolding advance_linear_move
advance_linear_move-Moves inst runtime m w =
    elim (Bool-cases (refs_empty inst.target_system_variables)) [
      | inl none_there ↦
          rw none_there (dispatch_at_pc-Moves (linear_move inst) (linear_move inst) runtime m tt w)
      | inr some_there ↦ rw some_there (
          let (resolution, after) = resolve_linear_move_instruction inst (some runtime) m.trace in
          after_axes-Moves inst resolution runtime (record m { trace = after }) w)
    ]

pub advance_rest-Moves :
    (inst : AilInstruction) (runtime : Option Runtime) (m : Machine)
    → IsStraight inst
    → IsAtWork m.executor
    → Moves m.executor (advance_rest inst runtime m).executor
unfolding advance_rest
advance_rest-Moves inst none m i w = advance_other-Moves inst m.executor i w
advance_rest-Moves (linear_move inst) (some runtime) m i w =
    advance_linear_move-Moves inst runtime m w
advance_rest-Moves inst (some runtime) m i w = dispatch_at_pc-Moves inst inst runtime m i w
