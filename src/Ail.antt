-- ===== src/Ail.antt =====
-- include/gcode/ail.h: the instructions of the intermediate language and the tool selections.
use experimental_gcode_parse.Prelude.{
  ℕ, ℤ, String, Bool, true, false, List, Option, none, some, ◌&&◌, not,
}
use experimental_gcode_parse.Floats.{Double}
use experimental_gcode_parse.Ast.{ExprNode, Condition, Diagnostic}
use experimental_gcode_parse.Lowering.{
  SourceInfo, ModalState, Pose6, ArcParams, DwellMode, RejectedLine,
}

pub data RapidInterpolationMode : Type 0 where
  linear non_linear : RapidInterpolationMode

pub data ToolRadiusCompMode : Type 0 where
  off left right : ToolRadiusCompMode

pub data WorkingPlane : Type 0 where
  xy zx yz : WorkingPlane

pub data ToolActionTiming : Type 0 where
  immediate deferred_until_m6 : ToolActionTiming

pub data SubprogramSearchPolicy : Type 0 where
  exact_only exact_then_bare_name : SubprogramSearchPolicy

pub record ToolSelectionState : Type 0 where
  pub selector_index : Option ℤ
  pub selector_value : String

pub record AxisSystemVariableRefs : Type 0 where
  pub x : Option String
  pub y : Option String
  pub z : Option String
  pub a : Option String
  pub b : Option String
  pub c : Option String

abbrev pub no_refs : AxisSystemVariableRefs
no_refs = record { x = none; y = none; z = none; a = none; b = none; c = none }

abbrev pub has_value {ℓ} : {A : Type ℓ} → Option A → Bool
has_value none = false
has_value (some a) = true

-- AxisSystemVariableRefs::empty
unfoldable pub refs_empty : AxisSystemVariableRefs → Bool
refs_empty r =
    not (has_value r.x)
    && not (has_value r.y)
    && not (has_value r.z)
    && not (has_value r.a)
    && not (has_value r.b)
    && not (has_value r.c)

pub data ToolSelectionResolutionKind : Type 0 where
  resolved unresolved ambiguous : ToolSelectionResolutionKind

pub record ToolSelectionResolution : Type 0 where
  pub kind : ToolSelectionResolutionKind
  pub selection : ToolSelectionState
  pub substituted : Bool
  pub message : String

pub record SubprogramResolution : Type 0 where
  pub resolved : Bool
  pub resolved_target : String
  pub fallback_used : Bool
  pub message : String

abbrev pub LabelPositionMap : Type 0
LabelPositionMap = List (String × List ℕ)

pub record LinearMove : Type 0 where
  pub source : SourceInfo
  pub modal : ModalState
  pub opcode : String
  pub target_pose : Pose6
  pub target_system_variables : AxisSystemVariableRefs
  pub feed : Option Double
  pub rapid_mode_effective : Option RapidInterpolationMode

pub record ArcMove : Type 0 where
  pub source : SourceInfo
  pub modal : ModalState
  pub clockwise : Bool
  pub plane_effective : WorkingPlane
  pub target_pose : Pose6
  pub arc : ArcParams
  pub feed : Option Double

pub record Dwell : Type 0 where
  pub source : SourceInfo
  pub modal : ModalState
  pub dwell_mode : DwellMode
  pub dwell_value : Double

pub record MCode : Type 0 where
  pub source : SourceInfo
  pub address_extension : Option ℤ
  pub value : ℤ

pub record ToolSelect : Type 0 where
  pub source : SourceInfo
  pub selector_index : Option ℤ
  pub selector_value : String
  pub timing : ToolActionTiming

pub record SubprogramCall : Type 0 where
  pub source : SourceInfo
  pub target : String
  pub repeat_count : Option ℤ

pub record Assign : Type 0 where
  pub source : SourceInfo
  pub lhs : String
  pub rhs : ExprNode

pub record Goto : Type 0 where
  pub source : SourceInfo
  pub opcode : String
  pub target : String
  pub target_kind : String

pub record BranchIf : Type 0 where
  pub source : SourceInfo
  pub condition : Condition
  pub then_branch : Goto
  pub else_branch : Option Goto

-- The alternatives of the variant, the small structs with their fields in place.
pub data AilInstruction : Type 0 where
  linear_move : LinearMove → AilInstruction
  arc_move : ArcMove → AilInstruction
  dwell : Dwell → AilInstruction
  mcode : MCode → AilInstruction
  rapid_traverse_mode : SourceInfo → RapidInterpolationMode → AilInstruction
  tool_radius_comp : SourceInfo → ToolRadiusCompMode → AilInstruction
  working_plane : SourceInfo → WorkingPlane → AilInstruction
  tool_select : ToolSelect → AilInstruction
  tool_change : SourceInfo → ToolActionTiming → AilInstruction
  return_boundary : SourceInfo → String → AilInstruction
  subprogram_call : SubprogramCall → AilInstruction
  assign : Assign → AilInstruction
  label : SourceInfo → String → AilInstruction
  goto_ : Goto → AilInstruction
  branch_if : BranchIf → AilInstruction
  sync : SourceInfo → String → AilInstruction

-- The `source` that every alternative has, as `std::visit` reads it.
unfoldable pub source_of : AilInstruction → SourceInfo
source_of (linear_move i) = i.source
source_of (arc_move i) = i.source
source_of (dwell i) = i.source
source_of (mcode i) = i.source
source_of (rapid_traverse_mode s m) = s
source_of (tool_radius_comp s m) = s
source_of (working_plane s p) = s
source_of (tool_select i) = i.source
source_of (tool_change s t) = s
source_of (return_boundary s o) = s
source_of (subprogram_call i) = i.source
source_of (assign i) = i.source
source_of (label s n) = s
source_of (goto_ i) = i.source
source_of (branch_if i) = i.source
source_of (sync s t) = s

pub record AilResult : Type 0 where
  pub instructions : List AilInstruction
  pub diagnostics : List Diagnostic
  pub rejected_lines : List RejectedLine
