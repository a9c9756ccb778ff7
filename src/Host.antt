-- ===== src/Host.antt =====
-- include/gcode/execution_interfaces.h and include/gcode/execution_runtime.h. The sink is a log of
-- what was reported. The runtime and the condition resolver are not part of the program: they are
-- functions that may answer by everything that was reported and asked before, so they stand for
-- any machine. A trace has its latest event first.
use experimental_gcode_parse.Prelude.{String, List, Option}
use experimental_gcode_parse.Floats.{Double}
use experimental_gcode_parse.Ast.{Condition, Diagnostic}
use experimental_gcode_parse.Lowering.{SourceInfo}
use experimental_gcode_parse.Runtime.{
  WaitToken, RuntimeResult, ConditionResolution, LinearMoveCommand, ArcMoveCommand, DwellCommand,
  ToolChangeCommand, ModalUpdateEvent, RejectedState,
}

-- The calls of IExecutionSink, IRuntime and IConditionResolver. A read carries the source that
-- ScopedRuntimeReadTraceSource makes visible to the runtime.
pub data Event : Type 0 where
  diagnostic : Diagnostic → Event
  rejected_line : RejectedState → Event
  modal_update : ModalUpdateEvent → Event
  linear_move : LinearMoveCommand → Event
  arc_move : ArcMoveCommand → Event
  dwell : DwellCommand → Event
  tool_change : ToolChangeCommand → Event
  submit_linear_move : LinearMoveCommand → Event
  submit_arc_move : ArcMoveCommand → Event
  submit_dwell : DwellCommand → Event
  submit_tool_change : ToolChangeCommand → Event
  read_system_variable : SourceInfo → String → Event
  cancel_wait : WaitToken → Event
  resolve : Condition → SourceInfo → Event

abbrev pub Trace : Type 0
Trace = List Event

-- IRuntime: each method, given what happened before the call.
pub record Runtime : Type 0 where
  pub submit_linear_move : Trace → LinearMoveCommand → RuntimeResult WaitToken
  pub submit_arc_move : Trace → ArcMoveCommand → RuntimeResult WaitToken
  pub submit_dwell : Trace → DwellCommand → RuntimeResult WaitToken
  pub submit_tool_change : Trace → ToolChangeCommand → RuntimeResult WaitToken
  pub read_system_variable : Trace → SourceInfo → String → RuntimeResult Double

-- IConditionResolver
abbrev pub ConditionResolver : Type 0
ConditionResolver = Trace → Condition → SourceInfo → ConditionResolution

-- What a step has at hand. Sink and runtime are present together or not at all.
pub record Host : Type 0 where
  pub resolver : ConditionResolver
  pub runtime : Option Runtime
