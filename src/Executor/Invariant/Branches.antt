-- ===== src/Executor/Invariant/Branches.antt =====
-- Branches, assignments and M functions of src/ail.cpp keep the executor's invariant.
use experimental_gcode_parse.Prelude.{
  ℤ, String, ◌+++◌, ◌≡◌, refl, Bool, true, false, Option, none, some, arith, to_string,
}
use experimental_gcode_parse.Floats.{Double, FloatOps}
use experimental_gcode_parse.Ail.{Goto, BranchIf, Assign, MCode}
use experimental_gcode_parse.Runtime.{WaitToken, ConditionResolution}
use experimental_gcode_parse.Host.{Host, ConditionResolver, Runtime}
use experimental_gcode_parse.Executor.State.{AilExecutor, Machine}
use experimental_gcode_parse.Lowering.{value_or}
use experimental_gcode_parse.Executor.Expression.{
  ExpressionEvaluation, evaluate_expression_node, compare_condition_values,
}
use experimental_gcode_parse.Executor.Goto.{resolve_goto_target}
use experimental_gcode_parse.Executor.Branch.{
  wait_here, take_branch, branch_on, after_resolution, resolve_by_host, branch_on_comparison,
  after_rhs, evaluate_rhs, evaluate_sides, evaluate_branch_at_pc, assign_variable,
  after_assign_value, handle_assign_at_pc, handle_mcode_at_pc,
}
use experimental_gcode_parse.Executor.Invariant.{IsValid, IsRunning}
use experimental_gcode_parse.Executor.Invariant.Basic.{
  next_pc-IsValid, block_on-IsValid, add_fault-IsValid, add_warning-IsRunning,
}
use experimental_gcode_parse.Executor.Invariant.Jumps.{
  follow-IsValid, resolve_goto_target-IsResolved,
}

pub wait_here-IsValid :
    (token : Option WaitToken) (retry : Option ℤ) {e : AilExecutor}
    → IsRunning e
    → IsValid (wait_here token retry e)
unfolding wait_here
wait_here-IsValid token retry v = block_on-IsValid v _ (omega (arith, v.pc_lt))

take_branch-IsValid :
    (branch : BranchIf) (goto : Goto) {e : AilExecutor}
    → IsRunning e
    → IsValid (take_branch branch goto e)
unfolding take_branch
take_branch-IsValid branch goto {e} v =
    follow-IsValid branch.source "unresolved branch target: " goto
      (resolve_goto_target e.state.pc goto e) (resolve_goto_target-IsResolved e.state.pc goto v)

branch_else-IsValid :
    (branch : BranchIf) (o : Option Goto) {e : AilExecutor}
    → IsRunning e
    → branch.else_branch ≡ o
    → IsValid (branch_on branch false e)
unfolding branch_on
branch_else-IsValid branch none v q = rw (q, branch_on) (next_pc-IsValid v)
branch_else-IsValid branch (some goto) v q = rw (q, branch_on) (take_branch-IsValid branch goto v)

branch_on-IsValid :
    (branch : BranchIf) (b : Bool) {e : AilExecutor} → IsRunning e → IsValid (branch_on branch b e)
unfolding branch_on
branch_on-IsValid branch true v = take_branch-IsValid branch branch.then_branch v
branch_on-IsValid branch false v = branch_else-IsValid branch branch.else_branch v refl

after_resolution-IsValid :
    (branch : BranchIf) (resolution : ConditionResolution) {e : AilExecutor}
    → IsRunning e
    → IsValid (after_resolution branch resolution e)
unfolding after_resolution
after_resolution-IsValid branch resolution {e} v = ground (
  arith,
  wait_here-IsValid resolution.wait_token resolution.retry_at_ms v,
  add_fault-IsValid v branch.source
      (value_or resolution.error_message "condition evaluation failed at runtime"),
  branch_on-IsValid branch true v,
  branch_on-IsValid branch false v,
)

resolve_by_host-IsValid :
    (resolver : ConditionResolver) (branch : BranchIf) (m : Machine)
    → IsRunning m.executor
    → IsValid (resolve_by_host resolver branch m).executor
unfolding resolve_by_host
resolve_by_host-IsValid resolver branch m v =
    after_resolution-IsValid branch (resolver m.trace branch.condition branch.source) v

branch_on_comparison-IsValid :
    (branch : BranchIf) (o : Option Bool) {e : AilExecutor}
    → IsRunning e
    → IsValid (branch_on_comparison branch o e)
unfolding branch_on_comparison
branch_on_comparison-IsValid branch none v = add_fault-IsValid v branch.source _
branch_on_comparison-IsValid branch (some b) v = branch_on-IsValid branch b v

module _ (ops : FloatOps) (branch : BranchIf) (lhs : ExpressionEvaluation) (m : Machine)
    (v : IsRunning m.executor) where
  after_rhs-IsValid :
      (resolver : ConditionResolver) (rhs : ExpressionEvaluation)
      → IsValid (after_rhs ops resolver branch lhs rhs m).executor
  unfolding after_rhs
  after_rhs-IsValid resolver rhs = ground (
    arith,
    wait_here-IsValid rhs.wait_token none v,
    add_fault-IsValid v branch.source rhs.error_message,
    resolve_by_host-IsValid resolver branch m v,
    branch_on_comparison-IsValid branch
        (compare_condition_values ops lhs.value rhs.value branch.condition.op) v,
  )

evaluate_rhs-IsValid :
    (ops : FloatOps) (host : Host) (branch : BranchIf) (lhs : ExpressionEvaluation) (m : Machine)
    → IsRunning m.executor
    → IsValid (evaluate_rhs ops host branch lhs m).executor
unfolding evaluate_rhs
evaluate_rhs-IsValid ops host branch lhs m v =
    let (rhs, after) =
      evaluate_expression_node ops branch.condition.rhs m.executor.state.user_variables host.runtime
        branch.source m.trace in
    after_rhs-IsValid ops branch lhs (record m { trace = after }) v host.resolver rhs

evaluate_sides-IsValid :
    (ops : FloatOps) (host : Host) (branch : BranchIf) (m : Machine)
    → IsRunning m.executor
    → IsValid (evaluate_sides ops host branch m).executor
unfolding evaluate_sides
evaluate_sides-IsValid ops host branch m v =
    let (lhs, after) =
      evaluate_expression_node ops branch.condition.lhs m.executor.state.user_variables host.runtime
        branch.source m.trace in
    ground (
      arith,
      wait_here-IsValid lhs.wait_token none v,
      add_fault-IsValid v branch.source lhs.error_message,
      evaluate_rhs-IsValid ops host branch lhs (record m { trace = after }) v,
    )

pub evaluate_branch-IsValid :
    (ops : FloatOps) (host : Host) (branch : BranchIf) (m : Machine)
    → IsRunning m.executor
    → IsValid (evaluate_branch_at_pc ops host branch m).executor
unfolding evaluate_branch_at_pc
evaluate_branch-IsValid ops host branch m v = ground (
  arith,
  evaluate_sides-IsValid ops host branch m v,
  resolve_by_host-IsValid host.resolver branch m v,
)

assign_variable-IsRunning :
    (name : String) (x : Double) {e : AilExecutor}
    → IsRunning e
    → IsRunning (assign_variable name x e)
unfolding assign_variable
assign_variable-IsRunning name x v = record {
  indexed = v.indexed;
  frames = v.frames;
  depth = v.depth;
  pc_lt = v.pc_lt;
  ready = v.ready;
  not_blocked = v.not_blocked;
  not_faulted = v.not_faulted;
}

after_assign_value-IsValid :
    (assign : Assign) (value : ExpressionEvaluation) {e : AilExecutor}
    → IsRunning e
    → IsValid (after_assign_value assign value e)
unfolding after_assign_value
after_assign_value-IsValid assign value {e} v = ground (
  arith,
  wait_here-IsValid value.wait_token none v,
  add_fault-IsValid v assign.source,
  next_pc-IsValid (assign_variable-IsRunning assign.lhs value.value v),
)

pub handle_assign-IsValid :
    (ops : FloatOps) (runtime : Option Runtime) (assign : Assign) (m : Machine)
    → IsRunning m.executor
    → IsValid (handle_assign_at_pc ops runtime assign m).executor
unfolding handle_assign_at_pc
handle_assign-IsValid ops runtime assign m v =
    after_assign_value-IsValid assign
      (evaluate_expression_node ops assign.rhs m.executor.state.user_variables runtime assign.source
        m.trace).0
      v

pub handle_mcode-IsValid :
    (inst : MCode) {e : AilExecutor} → IsRunning e → IsValid (handle_mcode_at_pc inst e)
unfolding handle_mcode_at_pc
handle_mcode-IsValid inst {e} v = ground (
  arith,
  next_pc-IsValid v,
  add_fault-IsValid v inst.source ("unsupported M function: " +++ ("M" +++ to_string inst.value)),
  next_pc-IsValid (
      add_warning-IsRunning v inst.source
        ("unsupported M function ignored by policy: " +++ ("M" +++ to_string inst.value))),
)
