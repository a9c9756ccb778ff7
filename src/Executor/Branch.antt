-- ===== src/Executor/Branch.antt =====
-- src/ail.cpp: AilExecutor::evaluateBranchAtPc, handleAssignAtPc and handleMCodeAtPc.
use experimental_gcode_parse.Prelude.{
  ℕ, ℤ, pos, leb_ℤ, String, ◌+++◌, Bool, true, false, ◌&&◌, ◌||◌, not, Option, none, some, ◌==◌,
  int_eq, string_eq, if◌then◌else◌, ◌∷◌, insert, to_upper, to_string, is_empty,
}
use experimental_gcode_parse.Floats.{Double, FloatOps}
use experimental_gcode_parse.Ast.{is_set}
use experimental_gcode_parse.Lowering.{SourceInfo, ErrorPolicy}
use experimental_gcode_parse.Ail.{Goto, BranchIf, Assign, MCode}
use experimental_gcode_parse.Runtime.{WaitToken, ConditionResolution, ConditionResolutionKind}
use experimental_gcode_parse.Host.{Event, Host, ConditionResolver, Runtime}
use experimental_gcode_parse.Executor.State.{
  AilExecutor, Machine, add_fault, add_warning, next_pc, jump_to, block_on,
}
use experimental_gcode_parse.Lowering.{value_or}
use experimental_gcode_parse.Executor.Expression.{
  ExpressionEvaluation, ExpressionEvaluationKind, evaluate_expression_node,
  compare_condition_values, is_system_variable_name,
}
use experimental_gcode_parse.Executor.Goto.{resolve_goto_target}

-- The executor stays on its instruction until the token or the time comes.
unfoldable pub wait_here : Option WaitToken → Option ℤ → AilExecutor → AilExecutor
unfolding block_on
wait_here token retry_at_ms e =
    block_on
      (record {
        instruction_index = e.state.pc;
        wait_token = token;
        retry_at_ms = retry_at_ms;
        tool_change_target_on_resume = none;
      })
      e

-- The jump after `resolveGotoTarget`, as both arms of a branch and the goto instruction make it.
unfoldable pub follow : SourceInfo → String → Goto → Option ℕ × AilExecutor → AilExecutor
unfolding add_fault next_pc jump_to
follow source message goto (some target, e) = jump_to target e
follow source message goto (none, e) =
    if goto.opcode == "GOTOC" then next_pc e else add_fault source (message +++ goto.target) e

unfoldable pub take_branch : BranchIf → Goto → AilExecutor → AilExecutor
unfolding follow
take_branch branch goto e =
    follow branch.source "unresolved branch target: " goto (resolve_goto_target e.state.pc goto e)

unfoldable pub branch_on : BranchIf → Bool → AilExecutor → AilExecutor
unfolding take_branch next_pc
branch_on branch true e = take_branch branch branch.then_branch e
branch_on branch false e = elim branch.else_branch [
  | none ↦ next_pc e
  | some goto ↦ take_branch branch goto e
]

-- What follows once the condition is resolved.
unfoldable pub after_resolution : BranchIf → ConditionResolution → AilExecutor → AilExecutor
unfolding wait_here add_fault branch_on
after_resolution branch resolution e = elim resolution.kind [
  | ConditionResolutionKind.pending ↦ wait_here resolution.wait_token resolution.retry_at_ms e
  | ConditionResolutionKind.error ↦
      add_fault branch.source
        (value_or resolution.error_message "condition evaluation failed at runtime") e
  | ConditionResolutionKind.true_ ↦ branch_on branch true e
  | ConditionResolutionKind.false_ ↦ branch_on branch false e
]

-- The resolver of the host is asked.
unfoldable pub resolve_by_host : ConditionResolver → BranchIf → Machine → Machine
unfolding after_resolution
resolve_by_host resolver branch m = record {
  executor = after_resolution branch (resolver m.trace branch.condition branch.source) m.executor;
  trace = Event.resolve branch.condition branch.source ∷ m.trace;
}

-- Both sides were ready: they are compared.
unfoldable pub branch_on_comparison : BranchIf → Option Bool → AilExecutor → AilExecutor
unfolding branch_on add_fault
branch_on_comparison branch none e =
    add_fault branch.source ("unsupported branch comparison operator: " +++ branch.condition.op) e
branch_on_comparison branch (some b) e = branch_on branch b e

-- The right side was evaluated after the left one, which was ready or unsupported.
unfoldable pub after_rhs :
    FloatOps
    → ConditionResolver
    → BranchIf
    → ExpressionEvaluation
    → ExpressionEvaluation
    → Machine
    → Machine
unfolding wait_here add_fault branch_on_comparison resolve_by_host
after_rhs ops resolver branch lhs rhs m = elim rhs.kind [
  | ExpressionEvaluationKind.pending ↦ record m {
    executor = wait_here rhs.wait_token none m.executor;
  }
  | ExpressionEvaluationKind.error ↦ record m {
    executor = add_fault branch.source rhs.error_message m.executor;
  }
  | ExpressionEvaluationKind.unsupported ↦ resolve_by_host resolver branch m
  | ExpressionEvaluationKind.ready ↦ elim lhs.kind [
    | ExpressionEvaluationKind.ready ↦ record m {
      executor =
          branch_on_comparison branch
            (compare_condition_values ops lhs.value rhs.value branch.condition.op) m.executor;
    }
    | _ ↦ resolve_by_host resolver branch m
  ]
]

unfoldable pub evaluate_rhs : FloatOps → Host → BranchIf → ExpressionEvaluation → Machine → Machine
unfolding after_rhs
evaluate_rhs ops host branch lhs m =
    let (rhs, after) =
      evaluate_expression_node ops branch.condition.rhs m.executor.state.user_variables host.runtime
        branch.source m.trace in
    after_rhs ops host.resolver branch lhs rhs (record m { trace = after })

unfoldable pub evaluate_sides : FloatOps → Host → BranchIf → Machine → Machine
unfolding evaluate_rhs wait_here add_fault
evaluate_sides ops host branch m =
    let (lhs, after) =
      evaluate_expression_node ops branch.condition.lhs m.executor.state.user_variables host.runtime
        branch.source m.trace in
    elim lhs.kind [
      | ExpressionEvaluationKind.pending ↦ record {
        executor = wait_here lhs.wait_token none m.executor;
        trace = after;
      }
      | ExpressionEvaluationKind.error ↦ record {
        executor = add_fault branch.source lhs.error_message m.executor;
        trace = after;
      }
      | _ ↦ evaluate_rhs ops host branch lhs (record m { trace = after })
    ]

-- AilExecutor::evaluateBranchAtPc
unfoldable pub evaluate_branch_at_pc : FloatOps → Host → BranchIf → Machine → Machine
unfolding evaluate_sides resolve_by_host
evaluate_branch_at_pc ops host branch m =
    if not branch.condition.has_logical_and
      && is_set branch.condition.lhs
      && is_set branch.condition.rhs
    then evaluate_sides ops host branch m
    else resolve_by_host host.resolver branch m

unfoldable pub assign_variable : String → Double → AilExecutor → AilExecutor
assign_variable name v e = record e {
  state = record e.state { user_variables = insert (to_upper name) v e.state.user_variables };
}

unfoldable pub after_assign_value : Assign → ExpressionEvaluation → AilExecutor → AilExecutor
unfolding wait_here add_fault assign_variable next_pc is_system_variable_name
after_assign_value assign value e =
    let message =
      if is_empty value.error_message
      then "assignment evaluation failed at runtime"
      else value.error_message in
    elim value.kind [
      | ExpressionEvaluationKind.pending ↦ wait_here value.wait_token none e
      | ExpressionEvaluationKind.error ↦ add_fault assign.source message e
      | ExpressionEvaluationKind.unsupported ↦ add_fault assign.source message e
      | ExpressionEvaluationKind.ready ↦
          if is_system_variable_name assign.lhs
          then add_fault assign.source
              ("system variable writes are unsupported at execution time: " +++ assign.lhs) e
          else next_pc (assign_variable assign.lhs value.value e)
    ]

-- AilExecutor::handleAssignAtPc
unfoldable pub handle_assign_at_pc : FloatOps → Option Runtime → Assign → Machine → Machine
unfolding after_assign_value
handle_assign_at_pc ops runtime assign m =
    let (value, after) =
      evaluate_expression_node ops assign.rhs m.executor.state.user_variables runtime assign.source
        m.trace in
    record { executor = after_assign_value assign value m.executor; trace = after }

-- isKnownPredefinedMFunction
unfoldable pub is_known_predefined_m_function : ℤ → Bool
is_known_predefined_m_function value =
    value == pos 0
    || value == pos 1
    || value == pos 2
    || value == pos 3
    || value == pos 4
    || value == pos 5
    || value == pos 6
    || value == pos 17
    || value == pos 19
    || value == pos 30
    || value == pos 70
    || leb_ℤ (pos 40) value && leb_ℤ value (pos 45)

-- AilExecutor::handleMCodeAtPc
unfoldable pub handle_mcode_at_pc : MCode → AilExecutor → AilExecutor
unfolding add_fault add_warning next_pc
handle_mcode_at_pc inst e =
    if is_known_predefined_m_function inst.value
    then next_pc e
    else elim e.options.unknown_mcode_policy [
      | ErrorPolicy.error ↦
          add_fault inst.source ("unsupported M function: " +++ ("M" +++ to_string inst.value)) e
      | ErrorPolicy.warning ↦ next_pc (
          add_warning inst.source
            ("unsupported M function ignored by policy: " +++ ("M" +++ to_string inst.value)) e)
      | ErrorPolicy.ignore ↦ next_pc e
    ]
