-- ===== src/Executor/Straight/Step.antt =====
-- src/ail.cpp: the step of an executor at work on an instruction that neither jumps nor calls.
use experimental_gcode_parse.Prelude.{ℤ, ◌≡◌, refl, Option, none, some, arith, true, get_elem?}
use experimental_gcode_parse.Floats.{FloatOps}
use experimental_gcode_parse.Ail.{
  AilInstruction, goto_, branch_if, mcode, assign, tool_select, tool_change, rapid_traverse_mode,
  tool_radius_comp, working_plane, MCode, Assign,
}
use experimental_gcode_parse.Host.{Host, Runtime}
use experimental_gcode_parse.Executor.State.{AilExecutor, Machine}
use experimental_gcode_parse.Executor.Expression.{ExpressionEvaluation, evaluate_expression_node}
use experimental_gcode_parse.Executor.Branch.{
  after_assign_value, handle_assign_at_pc, handle_mcode_at_pc,
}
use experimental_gcode_parse.Executor.Step.{
  advance_modal, advance_instruction, step, step_awake, wake_blocked_executor_if_ready,
  advance_one_instruction, complete,
}
use experimental_gcode_parse.Executor.Straight.{IsStraight, IsAtWork, Moves}
use experimental_gcode_parse.Executor.Straight.Tools.{
  handle_tool_change-Moves, handle_tool_select-Moves,
}
use experimental_gcode_parse.Executor.Straight.Motion.{advance_rest-Moves}

pub handle_mcode-Moves :
    (inst : MCode) (e : AilExecutor) → IsAtWork e → Moves e (handle_mcode_at_pc inst e)
unfolding handle_mcode_at_pc
handle_mcode-Moves inst e (s, b, c) = record {
  same = ground arith;
  frames = ground arith;
  further = λ h. ground (arith, h);
  unblocked = λ h. ground (arith, b);
  untimed = λ x h. ground (arith, b, h);
}

pub after_assign-Moves :
    (inst : Assign) (value : ExpressionEvaluation) (e : AilExecutor)
    → IsAtWork e
    → Moves e (after_assign_value inst value e)
unfolding after_assign_value
after_assign-Moves inst value e (s, b, c) = record {
  same = ground arith;
  frames = ground arith;
  further = λ h. ground (arith, h);
  unblocked = λ h. ground (arith, b, h);
  untimed = λ x h. ground (arith, b, h);
}

pub advance_modal-Moves :
    (inst : AilInstruction) (runtime : Option Runtime) (m : Machine)
    → IsStraight inst
    → IsAtWork m.executor
    → Moves m.executor (advance_modal inst runtime m).executor
unfolding advance_modal
advance_modal-Moves (rapid_traverse_mode s mode) runtime m i (q, b, c) = record {
  same = refl;
  frames = refl;
  further = λ h. refl;
  unblocked = λ h. b;
  untimed = λ x h. absurd (ground (arith, b, h));
}
advance_modal-Moves (tool_radius_comp s mode) runtime m i (q, b, c) = record {
  same = refl;
  frames = refl;
  further = λ h. refl;
  unblocked = λ h. b;
  untimed = λ x h. absurd (ground (arith, b, h));
}
advance_modal-Moves (working_plane s plane) runtime m i (q, b, c) = record {
  same = refl;
  frames = refl;
  further = λ h. refl;
  unblocked = λ h. b;
  untimed = λ x h. absurd (ground (arith, b, h));
}
advance_modal-Moves inst runtime m i w = advance_rest-Moves inst runtime m i w

pub handle_assign-Moves :
    (ops : FloatOps) (runtime : Option Runtime) (inst : Assign) (m : Machine)
    → IsAtWork m.executor
    → Moves m.executor (handle_assign_at_pc ops runtime inst m).executor
unfolding handle_assign_at_pc
handle_assign-Moves ops runtime inst m w =
    after_assign-Moves inst
      (evaluate_expression_node ops inst.rhs m.executor.state.user_variables runtime inst.source
        m.trace).0
      m.executor w

pub advance_instruction-Moves :
    (ops : FloatOps) (host : Host) (inst : AilInstruction) (m : Machine)
    → IsStraight inst
    → IsAtWork m.executor
    → Moves m.executor (advance_instruction ops host inst m).executor
unfolding advance_instruction
advance_instruction-Moves ops host (goto_ goto) m i w = absurd i
advance_instruction-Moves ops host (branch_if branch) m i w = absurd i
advance_instruction-Moves ops host (assign inst) m i w =
    handle_assign-Moves ops host.runtime inst m w
advance_instruction-Moves ops host (mcode inst) m i w = handle_mcode-Moves inst m.executor w
advance_instruction-Moves ops host (tool_select inst) m i w =
    handle_tool_select-Moves inst host.runtime m w
advance_instruction-Moves ops host (tool_change source timing) m i w =
    handle_tool_change-Moves source host.runtime m w
advance_instruction-Moves ops host inst m i w = advance_modal-Moves inst host.runtime m i w

-- The step of an executor at work is the instruction at its program counter.
pub step-advances :
    (ops : FloatOps) (now_ms : ℤ) (host : Host) (m : Machine) (inst : AilInstruction)
    → IsAtWork m.executor
    → get_elem? m.executor.instructions m.executor.state.pc ≡ some inst
    → step ops now_ms host m ≡ (advance_instruction ops host inst m, true)
unfolding step wake_blocked_executor_if_ready step_awake advance_one_instruction
step-advances ops now_ms host m inst (s, b, c) q =
    simp (step, wake_blocked_executor_if_ready, s, advance_one_instruction, q)

pub step-completes :
    (ops : FloatOps) (now_ms : ℤ) (host : Host) (m : Machine)
    → IsAtWork m.executor
    → get_elem? m.executor.instructions m.executor.state.pc ≡ none
    → step ops now_ms host m ≡ (record m { executor = complete m.executor }, true)
unfolding step wake_blocked_executor_if_ready step_awake advance_one_instruction
step-completes ops now_ms host m (s, b, c) q =
    simp (step, wake_blocked_executor_if_ready, s, advance_one_instruction, q)
