-- ===== src/Runtime.antt =====
-- include/gcode/runtime_status.h, include/gcode/condition_runtime.h and
-- include/gcode/execution_commands.h: what the executor exchanges with the machine.
use experimental_gcode_parse.Prelude.{
  ℕ, ℤ, String, Bool, true, List, Option, ◌≡◌, ◌↔◌, ◌&&◌, arith, Comparable, ◌==◌, string_eq,
}
use experimental_gcode_parse.Floats.{Double}
use experimental_gcode_parse.Ast.{Diagnostic}
use experimental_gcode_parse.Lowering.{ArcParams, DwellMode}
use experimental_gcode_parse.Ail.{
  WorkingPlane, RapidInterpolationMode, ToolRadiusCompMode, ToolSelectionState,
}

pub record WaitToken : Type 0 where
  pub kind : String
  pub id : String

-- WaitToken::operator==
abbrev pub token_beq : WaitToken → WaitToken → Bool
token_beq s t = s.kind == t.kind && s.id == t.id

pub token_beq_iff : (s t : WaitToken) → (token_beq s t ≡ true) ↔ (s ≡ t)
token_beq_iff s t = ground (arith, string_eq.same_iff s.kind t.kind, string_eq.same_iff s.id t.id)

instance abbrev pub token_eq : Comparable WaitToken
token_eq = record { same = token_beq; same_iff = token_beq_iff }

pub data RuntimeCallStatus : Type 0 where
  ready pending error : RuntimeCallStatus

pub record RuntimeResult (T : Type 0) : Type 0 where
  pub status : RuntimeCallStatus
  pub value : Option T
  pub wait_token : Option WaitToken
  pub error_message : String

pub data ConditionResolutionKind : Type 0 where
  true_ false_ pending error : ConditionResolutionKind

pub record ConditionResolution : Type 0 where
  pub kind : ConditionResolutionKind
  pub wait_token : Option WaitToken
  pub retry_at_ms : Option ℤ
  pub error_message : Option String

pub record SourceRef : Type 0 where
  pub filename : Option String
  pub line : ℕ
  pub line_number : Option ℤ

pub record EffectiveModalSnapshot : Type 0 where
  pub motion_code : String
  pub working_plane : WorkingPlane
  pub rapid_mode : RapidInterpolationMode
  pub tool_radius_comp : ToolRadiusCompMode
  pub active_tool_selection : Option ToolSelectionState
  pub pending_tool_selection : Option ToolSelectionState
  pub selected_tool_selection : Option ToolSelectionState

pub record PoseTarget : Type 0 where
  pub x : Option Double
  pub y : Option Double
  pub z : Option Double
  pub a : Option Double
  pub b : Option Double
  pub c : Option Double

pub record LinearMoveCommand : Type 0 where
  pub source : SourceRef
  pub target : PoseTarget
  pub feed : Option Double
  pub effective : EffectiveModalSnapshot

pub record ArcMoveCommand : Type 0 where
  pub source : SourceRef
  pub clockwise : Bool
  pub target : PoseTarget
  pub arc : ArcParams
  pub feed : Option Double
  pub effective : EffectiveModalSnapshot

pub record DwellCommand : Type 0 where
  pub source : SourceRef
  pub dwell_mode : DwellMode
  pub dwell_value : Double
  pub effective : EffectiveModalSnapshot

pub record ToolChangeCommand : Type 0 where
  pub source : SourceRef
  pub target_tool_selection : ToolSelectionState
  pub effective : EffectiveModalSnapshot

pub record ModalUpdateChanges : Type 0 where
  pub working_plane : Option WorkingPlane
  pub rapid_mode : Option RapidInterpolationMode
  pub tool_radius_comp : Option ToolRadiusCompMode

pub record ModalUpdateEvent : Type 0 where
  pub source : SourceRef
  pub changes : ModalUpdateChanges

-- RejectedLineEvent and RejectedState, which have the same fields.
pub record RejectedState : Type 0 where
  pub source : SourceRef
  pub reasons : List Diagnostic

pub data EngineState : Type 0 where
  accepting_input ready_to_execute blocked rejected completed cancelled faulted : EngineState

pub record BlockedState : Type 0 where
  pub line : ℕ
  pub token : WaitToken
  pub reason : String

pub data StepStatus : Type 0 where
  progress blocked rejected completed cancelled faulted : StepStatus

pub record StepResult : Type 0 where
  pub status : StepStatus
  pub blocked : Option BlockedState
  pub rejected : Option RejectedState
  pub fault : Option Diagnostic
