-- ===== src/Executor/Expression.antt =====
-- src/ail.cpp: the evaluation of expressions, of system variables and of a linear move's axes.
use experimental_gcode_parse.Prelude.{
  String, ◌+++◌, Bool, ◌||◌, List, [], ◌∷◌, Option, none, some, ◌==◌, string_eq, if◌then◌else◌,
  lookup, to_upper, front_is, is_empty,
}
use experimental_gcode_parse.Floats.{Double, FloatOps, zero_double}
use experimental_gcode_parse.Ast.{ExprNode, null, literal, variable, unary, binary}
use experimental_gcode_parse.Lowering.{SourceInfo, Pose6}
use experimental_gcode_parse.Ail.{AxisSystemVariableRefs, no_refs, LinearMove}
use experimental_gcode_parse.Runtime.{WaitToken, RuntimeResult, RuntimeCallStatus}
use experimental_gcode_parse.Host.{Event, Trace, Runtime}
use experimental_gcode_parse.Lowering.{value_or}

pub data ExpressionEvaluationKind : Type 0 where
  ready pending unsupported error : ExpressionEvaluationKind

pub record ExpressionEvaluation : Type 0 where
  pub kind : ExpressionEvaluationKind
  pub value : Double
  pub wait_token : Option WaitToken
  pub error_message : String

-- makeReadyEvaluation, makePendingEvaluation, makeUnsupportedEvaluation, makeErrorEvaluation
abbrev pub make_ready : Double → ExpressionEvaluation
make_ready v = record {
  kind = ExpressionEvaluationKind.ready;
  value = v;
  wait_token = none;
  error_message = "";
}

abbrev pub make_pending : Option WaitToken → ExpressionEvaluation
make_pending token = record {
  kind = ExpressionEvaluationKind.pending;
  value = zero_double;
  wait_token = token;
  error_message = "";
}

abbrev pub make_unsupported : String → ExpressionEvaluation
make_unsupported message = record {
  kind = ExpressionEvaluationKind.unsupported;
  value = zero_double;
  wait_token = none;
  error_message = message;
}

abbrev pub make_error : String → ExpressionEvaluation
make_error message = record {
  kind = ExpressionEvaluationKind.error;
  value = zero_double;
  wait_token = none;
  error_message = message;
}

-- isSystemVariableName
unfoldable pub is_system_variable_name : String → Bool
unfolding front_is
is_system_variable_name name = front_is b'$' name

-- What evaluateSystemVariableName makes of the runtime's answer.
unfoldable pub read_evaluation : String → RuntimeResult Double → ExpressionEvaluation
read_evaluation name result = elim result.status [
  | RuntimeCallStatus.pending ↦ make_pending result.wait_token
  | RuntimeCallStatus.error ↦ make_error (
      if is_empty result.error_message
      then "system variable read failed: " +++ name
      else result.error_message)
  | RuntimeCallStatus.ready ↦ elim result.value [
    | none ↦ make_error ("system variable read returned no value: " +++ name)
    | some v ↦ make_ready v
  ]
]

-- evaluateSystemVariableName; every caller passes a source.
unfoldable pub evaluate_system_variable_name :
    String → Option Runtime → SourceInfo → Trace → ExpressionEvaluation × Trace
unfolding read_evaluation
evaluate_system_variable_name name none source trace = (make_unsupported "", trace)
evaluate_system_variable_name name (some runtime) source trace = (
  read_evaluation name (runtime.read_system_variable trace source name),
  Event.read_system_variable source name ∷ trace,
)

unfoldable pub apply_unary : FloatOps → String → Double → ExpressionEvaluation
apply_unary ops op v =
    if op == "+"
    then make_ready v
    else if op == "-"
    then make_ready (ops.neg v)
    else make_unsupported ("unsupported unary operator: " +++ op)

unfoldable pub apply_binary : FloatOps → String → Double → Double → ExpressionEvaluation
apply_binary ops op l r =
    if op == "+"
    then make_ready (ops.add l r)
    else if op == "-"
    then make_ready (ops.sub l r)
    else if op == "*"
    then make_ready (ops.mul l r)
    else if op == "/"
    then (if ops.eq r zero_double
        then make_error "division by zero in expression"
        else make_ready (ops.div l r))
    else make_unsupported ("unsupported binary operator: " +++ op)

-- The code that goes on only from a ready value; anything else is the result as it stands.
abbrev pub when_ready :
    ExpressionEvaluation × Trace
    → (Double → Trace → ExpressionEvaluation × Trace)
    → ExpressionEvaluation × Trace
when_ready (e, trace) k = elim e.kind [
  | ExpressionEvaluationKind.ready ↦ k e.value trace
  | _ ↦ (e, trace)
]

-- evaluateExpressionNode
unfoldable pub evaluate_expression_node :
    FloatOps
    → ExprNode
    → List (String × Double)
    → Option Runtime
    → SourceInfo
    → Trace
    → ExpressionEvaluation × Trace
unfolding evaluate_system_variable_name apply_unary apply_binary is_system_variable_name
evaluate_expression_node ops null variables runtime source trace =
    (make_error "missing expression", trace)
evaluate_expression_node ops (literal v location) variables runtime source trace =
    (make_ready v, trace)
evaluate_expression_node ops (variable name is_system location) variables runtime source trace =
    if is_system || is_system_variable_name name
    then evaluate_system_variable_name name runtime source trace
    else (make_ready (value_or (lookup (to_upper name) variables) zero_double), trace)
evaluate_expression_node ops (unary op operand location) variables runtime source trace =
    when_ready (evaluate_expression_node ops operand variables runtime source trace)
      λ v after. (apply_unary ops op v, after)
evaluate_expression_node ops (binary op lhs rhs location) variables runtime source trace =
    when_ready (evaluate_expression_node ops lhs variables runtime source trace) λ l after_lhs.
      when_ready (evaluate_expression_node ops rhs variables runtime source after_lhs)
        λ r after. (apply_binary ops op l r, after)

pub record LinearMoveResolution : Type 0 where
  pub kind : ExpressionEvaluationKind
  pub instruction : LinearMove
  pub wait_token : Option WaitToken
  pub error_message : String

-- An axis: where its system variable stands, and how its value is written.
abbrev pub Axis : Type 0
Axis = (AxisSystemVariableRefs → Option String) × (Double → Pose6 → Pose6)

abbrev pub all_axes : List Axis
all_axes =
    (λ r. r.x, λ v p. record p { x = some v })
    ∷ (λ r. r.y, λ v p. record p { y = some v })
    ∷ (λ r. r.z, λ v p. record p { z = some v })
    ∷ (λ r. r.a, λ v p. record p { a = some v })
    ∷ (λ r. r.b, λ v p. record p { b = some v })
    ∷ (λ r. r.c, λ v p. record p { c = some v })
    ∷ []

-- resolveLinearMoveInstruction: the chain of calls of `resolve_axis`, which stops at the first
-- variable that is not ready and keeps the axes written before it.
unfoldable pub resolve_axes :
    List Axis → LinearMove → Pose6 → Option Runtime → Trace → LinearMoveResolution × Trace
unfolding evaluate_system_variable_name
resolve_axes [] inst pose runtime trace = (
  record {
    kind = ExpressionEvaluationKind.ready;
    instruction = record inst { target_pose = pose; target_system_variables = no_refs };
    wait_token = none;
    error_message = "";
  },
  trace,
)
resolve_axes ((ref, write) ∷ axes) inst pose runtime trace =
    elim (ref inst.target_system_variables) [
      | none ↦ resolve_axes axes inst pose runtime trace
      | some name ↦
          let (value, after) = evaluate_system_variable_name name runtime inst.source trace in
          elim value.kind [
            | ExpressionEvaluationKind.ready ↦
                resolve_axes axes inst (write value.value pose) runtime after
            | _ ↦ (
              record {
                kind = value.kind;
                instruction = record inst { target_pose = pose };
                wait_token = value.wait_token;
                error_message = value.error_message;
              },
              after,
            )
          ]
    ]

unfoldable pub resolve_linear_move_instruction :
    LinearMove → Option Runtime → Trace → LinearMoveResolution × Trace
unfolding resolve_axes
resolve_linear_move_instruction inst runtime trace =
    resolve_axes all_axes inst inst.target_pose runtime trace

-- compareConditionValues
unfoldable pub compare_condition_values : FloatOps → Double → Double → String → Option Bool
compare_condition_values ops lhs rhs op =
    if op == "==" || op == "=" || op == "EQ"
    then some (ops.eq lhs rhs)
    else if op == "!=" || op == "<>" || op == "NE"
    then some (ops.ne lhs rhs)
    else if op == "<" || op == "LT"
    then some (ops.lt lhs rhs)
    else if op == "<=" || op == "LE"
    then some (ops.le lhs rhs)
    else if op == ">" || op == "GT"
    then some (ops.lt rhs lhs)
    else if op == ">=" || op == "GE"
    then some (ops.le rhs lhs)
    else none
