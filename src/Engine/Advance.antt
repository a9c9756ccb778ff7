-- ===== src/Engine/Advance.antt =====
-- src/streaming_execution_engine.cpp: advanceActiveExecutor.
use experimental_gcode_parse.Prelude.{
  ℕ, zero, suc, pos, Bool, true, false, ◌&&◌, ◌||◌, not, [], ◌∷◌, length, drop, last?, Option, none,
  some, ltb, if◌then◌else◌,
}
use text.Mathlib.Text.{starts_with}
use experimental_gcode_parse.Floats.{FloatOps}
use experimental_gcode_parse.Ast.{Diagnostic}
use experimental_gcode_parse.Runtime.{
  WaitToken, ConditionResolutionKind, EngineState, RejectedState, StepStatus, StepResult,
}
use experimental_gcode_parse.Host.{Event, Host, Runtime, ConditionResolver}
use experimental_gcode_parse.Executor.State.{AilExecutor, ExecutorState, ExecutorStatus}
use experimental_gcode_parse.Executor.Step.{step}
use experimental_gcode_parse.Engine.State.{
  StreamingExecutionEngine, Streaming, plain, make_fault_diagnostic, emit_diagnostics,
  make_blocked_result, make_rejected_result, fault_with_diagnostic, settle,
}

-- RuntimeOnlyExecutionRuntime::resolve
unfoldable pub runtime_only_resolver : ConditionResolver
runtime_only_resolver trace condition source = record {
  kind = ConditionResolutionKind.error;
  wait_token = none;
  retry_at_ms = none;
  error_message = some "condition resolution is unavailable for runtime-only streaming execution";
}

-- The runtime of an engine: with a condition resolver (an IExecutionRuntime) or without one.
pub record EngineRuntime : Type 0 where
  pub runtime : Runtime
  pub execution_resolver : Option ConditionResolver

unfoldable pub host_of : EngineRuntime → Host
unfolding runtime_only_resolver
host_of r = record {
  resolver = elim r.execution_resolver [ none ↦ runtime_only_resolver | some c ↦ c ];
  runtime = some r.runtime;
}

-- shouldWaitForMoreInputOnFault
unfoldable pub should_wait_for_more_input_on_fault : Diagnostic → Bool
should_wait_for_more_input_on_fault diag =
    starts_with diag.message "unresolved goto target: "
    || starts_with diag.message "unresolved branch target: "

-- The loops that hand the executor's new diagnostics to the sink.
unfoldable pub emit_new_diagnostics : AilExecutor → Streaming → Streaming
unfolding emit_diagnostics
emit_new_diagnostics e s =
    if ltb s.engine.active_executor_emitted_diagnostics (length e.diagnostics)
    then record {
      engine = record s.engine { active_executor_emitted_diagnostics = length e.diagnostics };
      trace =
          emit_diagnostics (drop s.engine.active_executor_emitted_diagnostics e.diagnostics)
            s.trace;
    }
    else s

-- `executor_diagnostics.back()`, or the diagnostic that stands in for it.
unfoldable pub fault_diagnostic : AilExecutor → ℕ → Diagnostic
unfolding make_fault_diagnostic
fault_diagnostic e line = elim (last? e.diagnostics) [
  | some diag ↦ diag
  | none ↦ make_fault_diagnostic line "executor faulted without diagnostic"
]

-- The executor is given up and its lines stay pending, for more input may bring the target.
unfoldable pub wait_for_more_input : Streaming → StepResult × Streaming
wait_for_more_input s = (
  plain StepStatus.progress,
  record s {
    engine = record s.engine {
      active_executor = none;
      active_executor_emitted_diagnostics = 0;
      deferred_rejected = none;
      state = EngineState.ready_to_execute;
    };
  },
)

unfoldable pub fault_with_executor : Diagnostic → Streaming → StepResult × Streaming
fault_with_executor diag s = (
  record (plain StepStatus.faulted) { fault = some diag },
  record s {
    engine = record s.engine { blocked = none; rejected = none; state = EngineState.faulted };
  },
)

unfoldable pub drop_executor : Streaming → Streaming
drop_executor s = record s { engine = record s.engine { active_executor = none } }

-- The branch on ExecutorStatus::Fault.
unfoldable pub on_fault : AilExecutor → Streaming → StepResult × Streaming
unfolding fault_diagnostic should_wait_for_more_input_on_fault wait_for_more_input
    emit_new_diagnostics drop_executor fault_with_executor fault_with_diagnostic
on_fault e s =
    let diag = fault_diagnostic e s.engine.active_executor_line in
    if not s.engine.input_finished && should_wait_for_more_input_on_fault diag
    then wait_for_more_input s
    else elim e.diagnostics [
      | [] ↦ fault_with_diagnostic diag (drop_executor (emit_new_diagnostics e s))
      | d ∷ ds ↦ fault_with_executor diag (drop_executor (emit_new_diagnostics e s))
    ]

-- What a finished executor leaves to the next one.
unfoldable pub keep_modal_state :
    ExecutorState → StreamingExecutionEngine → StreamingExecutionEngine
keep_modal_state state e = record e {
  current_motion_code = state.motion_code_current;
  current_working_plane = state.working_plane_current;
  current_rapid_mode = state.rapid_mode_current;
  current_tool_radius_comp = state.tool_radius_comp_current;
  current_active_tool_selection = state.active_tool_selection;
  current_pending_tool_selection = state.pending_tool_selection;
  current_user_variables = state.user_variables;
  active_executor = none;
  active_executor_emitted_diagnostics = 0;
}

-- The line that was held back until what stands before it had run.
unfoldable pub reject_deferred : RejectedState → Streaming → StepResult × Streaming
unfolding emit_diagnostics make_rejected_result
reject_deferred rejected s = make_rejected_result rejected (record {
  engine = record s.engine { deferred_rejected = none };
  trace = Event.rejected_line rejected ∷ emit_diagnostics rejected.reasons s.trace;
})

-- The branch on ExecutorStatus::Completed.
unfoldable pub on_completed : AilExecutor → Streaming → StepResult × Streaming
unfolding emit_new_diagnostics keep_modal_state reject_deferred settle
on_completed e s =
    let emitted = emit_new_diagnostics e s in
    let kept : Streaming = record emitted { engine = keep_modal_state e.state emitted.engine } in
    elim kept.engine.deferred_rejected [
      | some rejected ↦ reject_deferred rejected kept
      | none ↦
          settle kept.engine.input_finished
            (record kept { engine = record kept.engine { pending_lines = [] } })
    ]

-- One round of the loop: it returns, or goes on.
pub data Round : Type 0 where
  returns : StepResult × Streaming → Round
  goes_on : Streaming → Round

-- The token of an executor that waits for one.
unfoldable pub waiting_token : AilExecutor → Option WaitToken
waiting_token e = elim e.state.status [
  | ExecutorStatus.blocked ↦ elim e.state.blocked [
    | none ↦ none
    | some suspension ↦ suspension.wait_token
  ]
  | _ ↦ none
]

-- The end of a round in which the executor neither waits for a token nor stopped.
unfoldable pub end_round : Bool → Streaming → Round
end_round true s = goes_on s
end_round false s = returns (plain StepStatus.progress, s)

unfoldable pub after_step : AilExecutor → Bool → Streaming → Round
unfolding waiting_token emit_new_diagnostics make_blocked_result on_fault on_completed end_round
after_step e progressed s = elim (waiting_token e) [
  | some token ↦ returns (
      make_blocked_result s.engine.active_executor_line token "instruction execution in progress"
        (emit_new_diagnostics e s))
  | none ↦ elim e.state.status [
    | ExecutorStatus.fault ↦ returns (on_fault e s)
    | ExecutorStatus.completed ↦ returns (on_completed e s)
    | _ ↦ end_round progressed (emit_new_diagnostics e s)
  ]
]

-- The executor steps at time 0, in place.
unfoldable pub round : FloatOps → EngineRuntime → AilExecutor → Streaming → Round
unfolding after_step host_of
round ops r e s =
    let (m, progressed) = step ops (pos 0) (host_of r) (record { executor = e; trace = s.trace }) in
    after_step m.executor progressed
      (record { engine = record s.engine { active_executor = some m.executor }; trace = m.trace })

-- advanceActiveExecutor; `none` means that the fuel ran out. A program that jumps back for ever
-- keeps the loop of the source running too.
unfoldable pub advance_active_executor :
    ℕ → FloatOps → EngineRuntime → Streaming → Option (StepResult × Streaming)
unfolding round
advance_active_executor zero ops r s = none
advance_active_executor (suc fuel) ops r s = elim s.engine.active_executor [
  | none ↦ some (plain StepStatus.progress, s)
  | some e ↦ elim (round ops r e s) [
    | returns result ↦ some result
    | goes_on after ↦ advance_active_executor fuel ops r after
  ]
]
