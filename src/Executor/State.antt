-- ===== src/Executor/State.antt =====
-- include/gcode/ail.h: the state of an executor, and addFault and addWarning of src/ail.cpp.
use experimental_gcode_parse.Prelude.{
  ℕ, suc, ℤ, String, Bool, false, List, [], ◌∷◌, ◌++◌, Option, none, some,
}
use experimental_gcode_parse.Floats.{Double}
use experimental_gcode_parse.Ast.{Diagnostic, Severity}
use experimental_gcode_parse.Lowering.{SourceInfo, ErrorPolicy}
use experimental_gcode_parse.Ail.{
  RapidInterpolationMode, ToolRadiusCompMode, WorkingPlane, ToolSelectionState,
  ToolSelectionResolution, SubprogramSearchPolicy, SubprogramResolution, LabelPositionMap,
  AilInstruction,
}
use experimental_gcode_parse.Runtime.{WaitToken}
use experimental_gcode_parse.Host.{Trace}

pub data ExecutorStatus : Type 0 where
  ready blocked completed fault : ExecutorStatus

pub record ExecutorBlockedState : Type 0 where
  pub instruction_index : ℕ
  pub wait_token : Option WaitToken
  pub retry_at_ms : Option ℤ
  pub tool_change_target_on_resume : Option ToolSelectionState

pub record ExecutorState : Type 0 where
  pub status : ExecutorStatus
  pub pc : ℕ
  pub call_stack_depth : ℕ
  pub motion_code_current : String
  pub rapid_mode_current : RapidInterpolationMode
  pub tool_radius_comp_current : ToolRadiusCompMode
  pub working_plane_current : WorkingPlane
  pub active_tool_selection : Option ToolSelectionState
  pub pending_tool_selection : Option ToolSelectionState
  pub selected_tool_selection : Option ToolSelectionState
  pub user_variables : List (String × Double)
  pub blocked : Option ExecutorBlockedState
  pub fault_message : Option String

pub record AilExecutorInitialState : Type 0 where
  pub motion_code_current : String
  pub rapid_mode_current : RapidInterpolationMode
  pub tool_radius_comp_current : ToolRadiusCompMode
  pub working_plane_current : WorkingPlane
  pub active_tool_selection : Option ToolSelectionState
  pub pending_tool_selection : Option ToolSelectionState
  pub selected_tool_selection : Option ToolSelectionState
  pub user_variables : List (String × Double)

-- A resolver that is not set is `none`.
pub record AilExecutorOptions : Type 0 where
  pub unknown_mcode_policy : ErrorPolicy
  pub m6_without_pending_policy : ErrorPolicy
  pub unresolved_tool_policy : ErrorPolicy
  pub ambiguous_tool_policy : ErrorPolicy
  pub allow_tool_substitution : Bool
  pub fallback_tool_selection : Option ToolSelectionState
  pub tool_substitution_map : List (String × String)
  pub unresolved_subprogram_policy : ErrorPolicy
  pub subprogram_search_policy : SubprogramSearchPolicy
  pub subprogram_alias_map : List (String × String)
  pub tool_selection_resolver : Option (ToolSelectionState → ToolSelectionResolution)
  pub subprogram_target_resolver : Option (String → LabelPositionMap → SubprogramResolution)
  pub initial_state : Option AilExecutorInitialState

pub record SubprogramCallFrame : Type 0 where
  pub return_pc : ℕ
  pub target_pc : ℕ
  pub remaining_repeats : ℤ

-- The head of `call_stack_frames` is the back of the vector.
pub record AilExecutor : Type 0 where
  pub instructions : List AilInstruction
  pub label_positions : LabelPositionMap
  pub line_number_positions : List (ℤ × List ℕ)
  pub call_stack_frames : List SubprogramCallFrame
  pub pending_events : List WaitToken
  pub options : AilExecutorOptions
  pub state : ExecutorState
  pub diagnostics : List Diagnostic

-- An executor together with what it has reported and asked so far.
pub record Machine : Type 0 where
  pub executor : AilExecutor
  pub trace : Trace

abbrev pub default_state : ExecutorState
default_state = record {
  status = ExecutorStatus.ready;
  pc = 0;
  call_stack_depth = 0;
  motion_code_current = "G1";
  rapid_mode_current = RapidInterpolationMode.linear;
  tool_radius_comp_current = ToolRadiusCompMode.off;
  working_plane_current = WorkingPlane.xy;
  active_tool_selection = none;
  pending_tool_selection = none;
  selected_tool_selection = none;
  user_variables = [];
  blocked = none;
  fault_message = none;
}

abbrev pub default_options : AilExecutorOptions
default_options = record {
  unknown_mcode_policy = ErrorPolicy.error;
  m6_without_pending_policy = ErrorPolicy.error;
  unresolved_tool_policy = ErrorPolicy.error;
  ambiguous_tool_policy = ErrorPolicy.error;
  allow_tool_substitution = false;
  fallback_tool_selection = none;
  tool_substitution_map = [];
  unresolved_subprogram_policy = ErrorPolicy.error;
  subprogram_search_policy = SubprogramSearchPolicy.exact_only;
  subprogram_alias_map = [];
  tool_selection_resolver = none;
  subprogram_target_resolver = none;
  initial_state = none;
}

-- A diagnostic in column 1 of the source's line, as both functions below build it.
abbrev pub diagnostic_at : Severity → SourceInfo → String → Diagnostic
diagnostic_at severity source message = record {
  severity = severity;
  message = message;
  location = record { line = source.line; column = 1 };
}

-- AilExecutor::addFault
unfoldable pub add_fault : SourceInfo → String → AilExecutor → AilExecutor
add_fault source message e = record e {
  state = record e.state { status = ExecutorStatus.fault; fault_message = some message };
  diagnostics = e.diagnostics ++ diagnostic_at Severity.error source message ∷ [];
}

-- AilExecutor::addWarning
unfoldable pub add_warning : SourceInfo → String → AilExecutor → AilExecutor
add_warning source message e = record e {
  diagnostics = e.diagnostics ++ diagnostic_at Severity.warning source message ∷ [];
}

-- `++state_.pc`
unfoldable pub next_pc : AilExecutor → AilExecutor
next_pc e = record e { state = record e.state { pc = suc e.state.pc } }

-- `state_.pc = target`
unfoldable pub jump_to : ℕ → AilExecutor → AilExecutor
jump_to target e = record e { state = record e.state { pc = target } }

-- `state_.status = Blocked; state_.blocked = blocked`
unfoldable pub block_on : ExecutorBlockedState → AilExecutor → AilExecutor
block_on suspension e = record e {
  state = record e.state { status = ExecutorStatus.blocked; blocked = some suspension };
}
