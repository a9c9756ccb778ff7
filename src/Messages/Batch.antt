-- ===== src/Messages/Batch.antt =====
-- src/messages.cpp: lowerToMessages.
use experimental_gcode_parse.Prelude.{
  ℤ, pos, Bytes, Bool, true, false, not, ◌||◌, List, [], ◌∷◌, ◌++◌, Option, none, some,
  if◌then◌else◌, ◌==◌, int_eq,
}
use experimental_gcode_parse.Floats.{FloatText}
use experimental_gcode_parse.Ast.{Diagnostic, Line, Program, ParseResult}
use experimental_gcode_parse.Lowering.{
  LowerOptions, RejectedLine, line_has_error, should_skip_line, source_from_line, value_or,
}
use experimental_gcode_parse.Ail.{WorkingPlane, xy}
use experimental_gcode_parse.Messages.{ParsedMessage, MessageResult}
use experimental_gcode_parse.Messages.Words.{
  collect_line_errors, validate_arc_plane_words, MotionScan, no_motion, scan_motion,
}
use experimental_gcode_parse.Messages.Family.{MotionFamilyLowerer, find_lowerer}

-- The rejected line that both loops build from a line and the reasons.
unfoldable pub rejected_line : LowerOptions → Line → List Diagnostic → RejectedLine
unfolding source_from_line
rejected_line options line reasons = record {
  source = source_from_line line options;
  reasons = reasons;
}

abbrev pub is_arc_code : ℤ → Bool
is_arc_code code = code == pos 2 || code == pos 3

-- The loop's state: what was collected, the plane, and whether the loop was left.
pub record BatchState : Type 0 where
  pub messages : List ParsedMessage
  pub diagnostics : List Diagnostic
  pub rejected_lines : List RejectedLine
  pub current_plane : WorkingPlane
  pub left_loop : Bool

-- Push the rejected line with the errors of the line, and break.
unfoldable pub reject : LowerOptions → Line → BatchState → BatchState
unfolding rejected_line
reject options line s = record s {
  rejected_lines =
      s.rejected_lines
      ++ rejected_line options line (collect_line_errors s.diagnostics line.line_index) ∷ [];
  left_loop = true;
}

-- The end of the round, by the lowerer of the motion code.
unfoldable pub lower_with :
    Option MotionFamilyLowerer → LowerOptions → Line → WorkingPlane → BatchState → BatchState
lower_with none options line plane s = record s { current_plane = plane }
lower_with (some lowerer) options line plane s = record s {
  messages = s.messages ++ (lowerer.lower line options).0 ∷ [];
  diagnostics = s.diagnostics ++ (lowerer.lower line options).1;
  current_plane = plane;
}

-- From the search for the lowerer to the end of the round.
unfoldable pub lower_motion : FloatText → LowerOptions → Line → MotionScan → BatchState → BatchState
unfolding find_lowerer lower_with
lower_motion num options line scan s =
    lower_with (find_lowerer num scan.found_motion) options line
      (value_or scan.line_plane_override s.current_plane) s

-- What follows the check of the arc words, given the diagnostics that it adds.
unfoldable pub lower_checked_arc :
    FloatText → LowerOptions → Line → MotionScan → List Diagnostic → BatchState → BatchState
unfolding lower_motion reject
lower_checked_arc num options line scan plane_diags s =
    let validated : BatchState = record s { diagnostics = s.diagnostics ++ plane_diags } in
    if line_has_error (s.diagnostics ++ plane_diags) line.line_index
    then reject options line validated
    else lower_motion num options line scan validated

-- The check of the arc words, for G2 and G3.
unfoldable pub lower_arc : FloatText → LowerOptions → Line → MotionScan → BatchState → BatchState
unfolding lower_checked_arc
lower_arc num options line scan s =
    lower_checked_arc num options line scan
      (validate_arc_plane_words line.items (value_or scan.line_plane_override s.current_plane)) s

-- From the test on `has_motion`.
unfoldable pub lower_scanned :
    FloatText → LowerOptions → Line → MotionScan → BatchState → BatchState
unfolding lower_motion lower_arc
lower_scanned num options line scan s =
    if not scan.has_motion
    then record s { current_plane = value_or scan.line_plane_override s.current_plane }
    else if is_arc_code scan.found_motion
    then lower_arc num options line scan s
    else lower_motion num options line scan s

-- One round of the loop.
unfoldable pub lower_message_line : FloatText → LowerOptions → Line → BatchState → BatchState
unfolding lower_scanned reject
lower_message_line num options line s =
    if should_skip_line line options
    then s
    else if line_has_error s.diagnostics line.line_index
    then reject options line s
    else lower_scanned num options line (scan_motion line.items no_motion) s

unfoldable pub lower_message_lines : FloatText → LowerOptions → List Line → BatchState → BatchState
unfolding lower_message_line
lower_message_lines num options [] s = s
lower_message_lines num options (line ∷ lines) s =
    let next = lower_message_line num options line s in
    let rest = lower_message_lines num options lines next in if next.left_loop then next else rest

abbrev pub batch_start : List Diagnostic → BatchState
batch_start diagnostics = record {
  messages = [];
  diagnostics = diagnostics;
  rejected_lines = [];
  current_plane = xy;
  left_loop = false;
}

abbrev pub result_of : BatchState → MessageResult
result_of s = record {
  messages = s.messages;
  diagnostics = s.diagnostics;
  rejected_lines = s.rejected_lines;
}

-- lowerToMessages
unfoldable pub lower_to_messages :
    FloatText → Program → List Diagnostic → LowerOptions → MessageResult
unfolding lower_message_lines
lower_to_messages num program parse_diagnostics options =
    result_of (lower_message_lines num options program.lines (batch_start parse_diagnostics))

-- parseAndLower
unfoldable pub parse_and_lower :
    FloatText → (Bytes → ParseResult) → Bytes → LowerOptions → MessageResult
unfolding lower_to_messages
parse_and_lower num parse input options =
    let parsed = parse input in lower_to_messages num parsed.program parsed.diagnostics options
