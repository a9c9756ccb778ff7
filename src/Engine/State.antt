-- ===== src/Engine/State.antt =====
-- src/streaming_execution_engine.h: the state of the engine, and the small functions that end a call.
use experimental_gcode_parse.Prelude.{
  ℕ, String, Bytes, Bool, true, false, List, [], ◌∷◌, Option, none, some,
}
use experimental_gcode_parse.Floats.{Double}
use experimental_gcode_parse.Ast.{Diagnostic, Severity}
use experimental_gcode_parse.Lowering.{LowerOptions}
use experimental_gcode_parse.Ail.{
  RapidInterpolationMode, ToolRadiusCompMode, WorkingPlane, ToolSelectionState,
}
use experimental_gcode_parse.Runtime.{
  WaitToken, EngineState, BlockedState, RejectedState, StepStatus, StepResult,
}
use experimental_gcode_parse.Host.{Event, Trace}
use experimental_gcode_parse.Executor.State.{AilExecutor, AilExecutorInitialState}

pub record PendingLine : Type 0 where
  pub line : ℕ
  pub text : Bytes

pub record StreamingExecutionEngine : Type 0 where
  pub options : LowerOptions
  pub state : EngineState
  pub input_buffer : Bytes
  pub pending_lines : List PendingLine
  pub blocked : Option BlockedState
  pub rejected : Option RejectedState
  pub deferred_rejected : Option RejectedState
  pub active_executor : Option AilExecutor
  pub active_executor_line : ℕ
  pub active_executor_emitted_diagnostics : ℕ
  pub next_line_number : ℕ
  pub input_finished : Bool
  pub current_motion_code : String
  pub current_working_plane : WorkingPlane
  pub current_rapid_mode : RapidInterpolationMode
  pub current_tool_radius_comp : ToolRadiusCompMode
  pub current_active_tool_selection : Option ToolSelectionState
  pub current_pending_tool_selection : Option ToolSelectionState
  pub current_user_variables : List (String × Double)

-- The engine together with what it has reported and asked so far.
pub record Streaming : Type 0 where
  pub engine : StreamingExecutionEngine
  pub trace : Trace

-- The constructor, with the initial values of the members.
unfoldable pub make_engine : LowerOptions → StreamingExecutionEngine
make_engine options = record {
  options = options;
  state = EngineState.accepting_input;
  input_buffer = [];
  pending_lines = [];
  blocked = none;
  rejected = none;
  deferred_rejected = none;
  active_executor = none;
  active_executor_line = 0;
  active_executor_emitted_diagnostics = 0;
  next_line_number = 1;
  input_finished = false;
  current_motion_code = "G1";
  current_working_plane = WorkingPlane.xy;
  current_rapid_mode = RapidInterpolationMode.linear;
  current_tool_radius_comp = ToolRadiusCompMode.off;
  current_active_tool_selection = none;
  current_pending_tool_selection = none;
  current_user_variables = [];
}

-- A result with a status alone.
abbrev pub plain : StepStatus → StepResult
plain status = record { status = status; blocked = none; rejected = none; fault = none }

-- makeFaultDiagnostic
unfoldable pub make_fault_diagnostic : ℕ → String → Diagnostic
make_fault_diagnostic line message = record {
  severity = Severity.error;
  message = message;
  location = record { line = line; column = 1 };
}

-- emitDiagnostics: the trace has its latest event first.
unfoldable pub emit_diagnostics : List Diagnostic → Trace → Trace
emit_diagnostics [] trace = trace
emit_diagnostics (d ∷ ds) trace = emit_diagnostics ds (Event.diagnostic d ∷ trace)

-- makeBlockedResult
unfoldable pub make_blocked_result : ℕ → WaitToken → String → Streaming → StepResult × Streaming
make_blocked_result line token reason s =
    let blocked : Option BlockedState =
      some (record { line = line; token = token; reason = reason }) in
    (
      record (plain StepStatus.blocked) { blocked = blocked },
      record s {
        engine = record s.engine {
          blocked = blocked;
          rejected = none;
          state = EngineState.blocked;
        };
      },
    )

-- makeRejectedResult
unfoldable pub make_rejected_result : RejectedState → Streaming → StepResult × Streaming
make_rejected_result rejected s = (
  record (plain StepStatus.rejected) { rejected = some rejected },
  record s {
    engine = record s.engine {
      blocked = none;
      rejected = some rejected;
      state = EngineState.rejected;
    };
  },
)

-- faultWithDiagnostic
unfoldable pub fault_with_diagnostic : Diagnostic → Streaming → StepResult × Streaming
fault_with_diagnostic diag s = (
  record (plain StepStatus.faulted) { fault = some diag },
  record {
    engine = record s.engine { blocked = none; rejected = none; state = EngineState.faulted };
    trace = Event.diagnostic diag ∷ s.trace;
  },
)

-- The engine goes to `state`, one of completed and ready to execute, and the result says so.
unfoldable pub settle : Bool → Streaming → StepResult × Streaming
settle true s = (
  plain StepStatus.completed,
  record s { engine = record s.engine { state = EngineState.completed } },
)
settle false s = (
  plain StepStatus.progress,
  record s { engine = record s.engine { state = EngineState.ready_to_execute } },
)

-- exportInitialState
unfoldable pub export_initial_state : StreamingExecutionEngine → AilExecutorInitialState
export_initial_state e = record {
  motion_code_current = e.current_motion_code;
  rapid_mode_current = e.current_rapid_mode;
  tool_radius_comp_current = e.current_tool_radius_comp;
  working_plane_current = e.current_working_plane;
  active_tool_selection = e.current_active_tool_selection;
  pending_tool_selection = e.current_pending_tool_selection;
  selected_tool_selection = none;
  user_variables = e.current_user_variables;
}

-- importInitialState
unfoldable pub import_initial_state :
    AilExecutorInitialState → ℕ → StreamingExecutionEngine → StreamingExecutionEngine
import_initial_state state next_line_number e = record e {
  current_motion_code = state.motion_code_current;
  current_rapid_mode = state.rapid_mode_current;
  current_tool_radius_comp = state.tool_radius_comp_current;
  current_working_plane = state.working_plane_current;
  current_active_tool_selection = state.active_tool_selection;
  current_pending_tool_selection = state.pending_tool_selection;
  current_user_variables = state.user_variables;
  next_line_number = next_line_number;
}
