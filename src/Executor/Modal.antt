-- ===== src/Executor/Modal.antt =====
-- src/execution_modal_state.cpp
use experimental_gcode_parse.Prelude.{String, Option, none, some}
use experimental_gcode_parse.Lowering.{value_or}
use experimental_gcode_parse.Ail.{
  AilInstruction, rapid_traverse_mode, tool_radius_comp, working_plane,
}
use experimental_gcode_parse.Runtime.{EffectiveModalSnapshot}
use experimental_gcode_parse.Executor.State.{ExecutorState, AilExecutorInitialState}

-- applyExecutionInitialState
unfoldable pub apply_execution_initial_state :
    ExecutorState → Option AilExecutorInitialState → ExecutorState
apply_execution_initial_state state none = state
apply_execution_initial_state state (some initial) = record state {
  motion_code_current = initial.motion_code_current;
  rapid_mode_current = initial.rapid_mode_current;
  tool_radius_comp_current = initial.tool_radius_comp_current;
  working_plane_current = initial.working_plane_current;
  active_tool_selection = initial.active_tool_selection;
  pending_tool_selection = initial.pending_tool_selection;
  selected_tool_selection = initial.selected_tool_selection;
  user_variables = initial.user_variables;
}

-- makeExecutionModalState of an executor's state: the overload on six parts clears the selected
-- tool, and this one sets it again.
unfoldable pub make_execution_modal_state : ExecutorState → Option String → EffectiveModalSnapshot
make_execution_modal_state state motion_code_override = record {
  motion_code = value_or motion_code_override state.motion_code_current;
  working_plane = state.working_plane_current;
  rapid_mode = state.rapid_mode_current;
  tool_radius_comp = state.tool_radius_comp_current;
  active_tool_selection = state.active_tool_selection;
  pending_tool_selection = state.pending_tool_selection;
  selected_tool_selection = state.selected_tool_selection;
}

-- applyExecutionModalInstruction on the three modes of a state; `none` where it returns false.
unfoldable pub apply_execution_modal_instruction :
    AilInstruction → ExecutorState → Option ExecutorState
apply_execution_modal_instruction (rapid_traverse_mode s mode) state =
    some (record state { rapid_mode_current = mode })
apply_execution_modal_instruction (tool_radius_comp s mode) state =
    some (record state { tool_radius_comp_current = mode })
apply_execution_modal_instruction (working_plane s plane) state =
    some (record state { working_plane_current = plane })
apply_execution_modal_instruction _ state = none
