-- ===== src/Executor/Command.antt =====
-- src/execution_command_builder.cpp
use experimental_gcode_parse.Prelude.{ℕ, none, some}
use experimental_gcode_parse.Lowering.{SourceInfo, Pose6}
use experimental_gcode_parse.Ail.{
  AilInstruction, rapid_traverse_mode, tool_radius_comp, working_plane, source_of, LinearMove,
  ArcMove, Dwell, ToolSelectionState,
}
use experimental_gcode_parse.Runtime.{
  SourceRef, PoseTarget, EffectiveModalSnapshot, LinearMoveCommand, ArcMoveCommand, DwellCommand,
  ToolChangeCommand, ModalUpdateChanges, ModalUpdateEvent,
}

-- toSourceRef
unfoldable pub to_source_ref : SourceInfo → SourceRef
to_source_ref source = record {
  filename = source.filename;
  line = source.line;
  line_number = source.line_number;
}

unfoldable pub to_pose_target : Pose6 → PoseTarget
to_pose_target pose = record {
  x = pose.x;
  y = pose.y;
  z = pose.z;
  a = pose.a;
  b = pose.b;
  c = pose.c;
}

-- buildLinearMoveCommand
unfoldable pub build_linear_move_command :
    LinearMove → ℕ → EffectiveModalSnapshot → LinearMoveCommand
unfolding to_source_ref to_pose_target
build_linear_move_command inst line state = record {
  source = record (to_source_ref inst.source) { line = line };
  target = to_pose_target inst.target_pose;
  feed = inst.feed;
  effective = state;
}

-- buildArcMoveCommand
unfoldable pub build_arc_move_command : ArcMove → ℕ → EffectiveModalSnapshot → ArcMoveCommand
unfolding to_source_ref to_pose_target
build_arc_move_command inst line state = record {
  source = record (to_source_ref inst.source) { line = line };
  clockwise = inst.clockwise;
  target = to_pose_target inst.target_pose;
  arc = inst.arc;
  feed = inst.feed;
  effective = state;
}

-- buildDwellCommand
unfoldable pub build_dwell_command : Dwell → ℕ → EffectiveModalSnapshot → DwellCommand
unfolding to_source_ref
build_dwell_command inst line state = record {
  source = record (to_source_ref inst.source) { line = line };
  dwell_mode = inst.dwell_mode;
  dwell_value = inst.dwell_value;
  effective = state;
}

-- buildToolChangeCommand
unfoldable pub build_tool_change_command :
    SourceInfo → ℕ → ToolSelectionState → EffectiveModalSnapshot → ToolChangeCommand
unfolding to_source_ref
build_tool_change_command source line target state = record {
  source = record (to_source_ref source) { line = line };
  target_tool_selection = target;
  effective = record state { selected_tool_selection = some target };
}

abbrev no_changes : ModalUpdateChanges
no_changes = record { working_plane = none; rapid_mode = none; tool_radius_comp = none }

modal_changes : AilInstruction → ModalUpdateChanges
modal_changes (rapid_traverse_mode s mode) = record no_changes { rapid_mode = some mode }
modal_changes (tool_radius_comp s mode) = record no_changes { tool_radius_comp = some mode }
modal_changes (working_plane s plane) = record no_changes { working_plane = some plane }
modal_changes _ = no_changes

-- buildModalUpdateEvent
unfoldable pub build_modal_update_event : AilInstruction → ModalUpdateEvent
unfolding to_source_ref modal_changes source_of
build_modal_update_event inst = record {
  source = to_source_ref (source_of inst);
  changes = modal_changes inst;
}
