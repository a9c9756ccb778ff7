-- ===== src/Executor/Dispatch.antt =====
-- src/execution_instruction_dispatcher.cpp
use experimental_gcode_parse.Prelude.{ℕ, String, Option, none, some, ◌∷◌}
use experimental_gcode_parse.Ail.{AilInstruction, linear_move, arc_move, dwell}
use experimental_gcode_parse.Runtime.{
  WaitToken, RuntimeResult, RuntimeCallStatus, EffectiveModalSnapshot,
}
use experimental_gcode_parse.Host.{Event, Trace, Runtime}
use experimental_gcode_parse.Executor.Command.{
  build_linear_move_command, build_arc_move_command, build_dwell_command,
}

-- ExecutionDispatchResult::Status
pub data DispatchStatus : Type 0 where
  not_handled progress blocked error : DispatchStatus

pub record ExecutionDispatchResult : Type 0 where
  pub status : DispatchStatus
  pub line : ℕ
  pub wait_token : Option WaitToken
  pub message : String

-- makeProgressResult
unfoldable pub make_progress_result : ℕ → ExecutionDispatchResult
make_progress_result line = record {
  status = DispatchStatus.progress;
  line = line;
  wait_token = none;
  message = "";
}

-- makeRuntimeDispatchResult
unfoldable pub make_runtime_dispatch_result :
    ℕ → RuntimeResult WaitToken → String → ExecutionDispatchResult
unfolding make_progress_result
make_runtime_dispatch_result line result pending_message = elim result.status [
  | RuntimeCallStatus.ready ↦ make_progress_result line
  | RuntimeCallStatus.pending ↦ elim result.wait_token [
    | none ↦ make_progress_result line
    | some token ↦ record {
      status = DispatchStatus.blocked;
      line = line;
      wait_token = some token;
      message = pending_message;
    }
  ]
  | RuntimeCallStatus.error ↦ record {
    status = DispatchStatus.error;
    line = line;
    wait_token = none;
    message = result.error_message;
  }
]

-- dispatchExecutionInstruction, with dispatchBuiltCommand in each of its branches: the sink hears
-- of the command, and then the runtime is given it.
unfoldable pub dispatch_execution_instruction :
    AilInstruction → ℕ → EffectiveModalSnapshot → Runtime → Trace → ExecutionDispatchResult × Trace
unfolding make_runtime_dispatch_result
dispatch_execution_instruction (linear_move inst) line modal runtime trace =
    let cmd = build_linear_move_command inst line modal in
    let emitted = Event.linear_move cmd ∷ trace in
    (
      make_runtime_dispatch_result cmd.source.line (runtime.submit_linear_move emitted cmd)
          "linear move in progress",
      Event.submit_linear_move cmd ∷ emitted,
    )
dispatch_execution_instruction (arc_move inst) line modal runtime trace =
    let cmd = build_arc_move_command inst line modal in
    let emitted = Event.arc_move cmd ∷ trace in
    (
      make_runtime_dispatch_result cmd.source.line (runtime.submit_arc_move emitted cmd)
          "arc move in progress",
      Event.submit_arc_move cmd ∷ emitted,
    )
dispatch_execution_instruction (dwell inst) line modal runtime trace =
    let cmd = build_dwell_command inst line modal in
    let emitted = Event.dwell cmd ∷ trace in
    (
      make_runtime_dispatch_result cmd.source.line (runtime.submit_dwell emitted cmd)
          "dwell in progress",
      Event.submit_dwell cmd ∷ emitted,
    )
dispatch_execution_instruction _ line modal runtime trace = (
  record { status = DispatchStatus.not_handled; line = 0; wait_token = none; message = "" },
  trace,
)
