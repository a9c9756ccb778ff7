-- ===== src/Lower/Items.antt =====
-- src/ail.cpp: what lowerToAil makes of the words of a line and of its message.
use experimental_gcode_parse.Prelude.{
  ℕ, pos, List, [], ◌∷◌, Option, none, some, if◌then◌else◌, ◌==◌, string_eq, nat_eq, lookup,
}
use experimental_gcode_parse.Floats.{FloatText}
use experimental_gcode_parse.Ast.{Line, LineItem, Word, word, comment}
use experimental_gcode_parse.Lowering.{LowerOptions, SourceInfo}
use experimental_gcode_parse.Ail.{
  AilInstruction, MCode, ToolSelect, ToolRadiusCompMode, linear_move, arc_move, mcode,
  rapid_traverse_mode, tool_radius_comp, working_plane, tool_select, tool_change, return_boundary,
  RapidInterpolationMode, WorkingPlane,
}
use experimental_gcode_parse.Lower.Words.{
  mcode_from_word, rapid_traverse_mode_from_word, tool_radius_comp_from_word,
  working_plane_from_word, timing_from_options, tool_select_from_word, is_plain_mcode,
  is_return_word,
}
use experimental_gcode_parse.Lower.Axes.{apply_linear_move_axis_values}
use experimental_gcode_parse.Lower.Blocks.{LowerState, emit}

-- The instruction of an M word: a return, a tool change or the M function itself.
unfoldable pub instruction_of_mcode : LowerOptions → MCode → AilInstruction
unfolding is_plain_mcode timing_from_options
instruction_of_mcode options m =
    if is_plain_mcode (pos 17) m
    then return_boundary m.source "M17"
    else if is_plain_mcode (pos 6) m
    then tool_change m.source (timing_from_options options)
    else mcode m

unfoldable pub emit_rapid_mode :
    SourceInfo → Option RapidInterpolationMode → LowerState → LowerState
emit_rapid_mode source none s = s
emit_rapid_mode source (some mode) s =
    emit (rapid_traverse_mode source mode) (record s { current_rapid_mode = some mode })

unfoldable pub emit_radius_comp : SourceInfo → Option ToolRadiusCompMode → LowerState → LowerState
emit_radius_comp source none s = s
emit_radius_comp source (some mode) s = emit (tool_radius_comp source mode) s

unfoldable pub emit_plane : SourceInfo → Option WorkingPlane → LowerState → LowerState
emit_plane source none s = s
emit_plane source (some plane) s =
    emit (working_plane source plane) (record s { current_working_plane = plane })

unfoldable pub emit_tool_select : Option ToolSelect → LowerState → LowerState
emit_tool_select none s = s
emit_tool_select (some selected) s = emit (tool_select selected) s

unfoldable pub emit_mcode : LowerOptions → Option MCode → LowerState → LowerState
unfolding instruction_of_mcode
emit_mcode options none s = s
emit_mcode options (some m) s = emit (instruction_of_mcode options m) s

-- The parts of a word up to the tool selection.
unfoldable pub lower_word_start : LowerOptions → SourceInfo → Word → LowerState → LowerState
unfolding emit_rapid_mode emit_radius_comp emit_plane emit_tool_select
lower_word_start options source w s = emit_tool_select (tool_select_from_word w source options) (
    emit_plane source (working_plane_from_word w) (
      emit_radius_comp source (tool_radius_comp_from_word w)
        (emit_rapid_mode source (rapid_traverse_mode_from_word w) s)))

-- One round of the loop over the items, on a word.
unfoldable pub lower_word : LowerOptions → SourceInfo → Word → LowerState → LowerState
unfolding lower_word_start is_return_word mcode_from_word emit_mcode
lower_word options source w s =
    if is_return_word w
    then emit (return_boundary source "RET") (lower_word_start options source w s)
    else emit_mcode options (mcode_from_word w source) (lower_word_start options source w s)

unfoldable pub lower_words : LowerOptions → SourceInfo → List LineItem → LowerState → LowerState
unfolding lower_word
lower_words options source [] s = s
lower_words options source (comment c ∷ items) s = lower_words options source items s
lower_words options source (word w ∷ items) s =
    lower_words options source items (lower_word options source w s)

-- What the line's message becomes in the modes of the moment.
unfoldable pub complete_motion :
    FloatText → List LineItem → LowerState → AilInstruction → AilInstruction
unfolding apply_linear_move_axis_values
complete_motion num items s (linear_move m) =
    let moved = apply_linear_move_axis_values num items m in
    if moved.opcode == "G0"
    then linear_move (record moved { rapid_mode_effective = s.current_rapid_mode })
    else linear_move moved
complete_motion num items s (arc_move m) =
    arc_move (record m { plane_effective = s.current_working_plane })
complete_motion num items s other = other

unfoldable pub emit_motion :
    FloatText → List LineItem → Option AilInstruction → LowerState → LowerState
unfolding complete_motion
emit_motion num items none s = s
emit_motion num items (some i) s = emit (complete_motion num items s i) s

-- The end of the round: the instruction of the line's message.
unfoldable pub lower_found : FloatText → List (ℕ × AilInstruction) → Line → LowerState → LowerState
unfolding emit_motion
lower_found num message_by_line line s =
    emit_motion num line.items (lookup line.line_index message_by_line) s
