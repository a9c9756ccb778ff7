-- ===== src/Messages/Stream.antt =====
-- src/messages.cpp: lowerToMessagesStream.
use experimental_gcode_parse.Prelude.{
  suc, Bytes, not, List, [], ◌∷◌, Option, none, some, if◌then◌else◌,
}
use experimental_gcode_parse.Floats.{FloatText}
use experimental_gcode_parse.Ast.{Diagnostic, Line, Program, ParseResult}
use experimental_gcode_parse.Lowering.{LowerOptions, line_has_error, should_skip_line, value_or}
use experimental_gcode_parse.Ail.{WorkingPlane, xy}
use experimental_gcode_parse.Messages.Words.{
  collect_line_errors, validate_arc_plane_words, MotionScan, no_motion, scan_motion,
}
use experimental_gcode_parse.Messages.Family.{MotionFamilyLowerer, find_lowerer}
use experimental_gcode_parse.Messages.Batch.{rejected_line, is_arc_code}
use experimental_gcode_parse.Messages.Callbacks.{
  message, rejected, go_on, return_false, StreamCallbacks, StreamOptions, StreamState, Flow,
  then_flow, check_stop, report, emit_parse_diagnostics, emit_lowering_diagnostics,
  emit_plane_diagnostics, any_error,
}

unfoldable pub stream_reject :
    StreamCallbacks → LowerOptions → Line → List Diagnostic → StreamState → Flow
unfolding report
stream_reject c options line reasons s =
    return_false (report c.on_rejected_line (rejected (rejected_line options line reasons)) s)

unfoldable pub set_plane : WorkingPlane → StreamState → Flow
set_plane plane s = go_on (record s { current_plane = plane })

-- The end of the round, by the lowerer of the motion code.
unfoldable pub stream_with :
    StreamCallbacks
    → StreamOptions
    → Option MotionFamilyLowerer
    → LowerOptions
    → Line
    → WorkingPlane
    → StreamState
    → Flow
unfolding report check_stop emit_lowering_diagnostics set_plane
stream_with c o none options line plane s = set_plane plane s
stream_with c o (some lowerer) options line plane s =
    let lowered = lowerer.lower line options in
    let reported = report c.on_message (message lowered.0) s in
    then_flow (check_stop o (record reported { messages_seen = suc reported.messages_seen }))
      (λ t. then_flow (emit_lowering_diagnostics c o lowered.1 t) (set_plane plane))

-- From the search for the lowerer to the end of the round.
unfoldable pub stream_motion :
    FloatText
    → StreamCallbacks
    → StreamOptions
    → LowerOptions
    → Line
    → MotionScan
    → WorkingPlane
    → StreamState
    → Flow
unfolding find_lowerer stream_with
stream_motion num c o options line scan plane s =
    stream_with c o (find_lowerer num scan.found_motion) options line plane s

-- What follows the check of the arc words, given the diagnostics that it adds.
unfoldable pub stream_checked_arc :
    FloatText
    → StreamCallbacks
    → StreamOptions
    → LowerOptions
    → Line
    → MotionScan
    → WorkingPlane
    → List Diagnostic
    → StreamState
    → Flow
unfolding stream_motion stream_reject emit_plane_diagnostics any_error
stream_checked_arc num c o options line scan plane plane_diags s =
    let reported = emit_plane_diagnostics c plane_diags s in
    if any_error plane_diags
    then stream_reject c options line plane_diags reported
    else stream_motion num c o options line scan plane reported

-- The check of the arc words, for G2 and G3.
unfoldable pub stream_arc :
    FloatText
    → StreamCallbacks
    → StreamOptions
    → LowerOptions
    → Line
    → MotionScan
    → WorkingPlane
    → StreamState
    → Flow
unfolding stream_checked_arc
stream_arc num c o options line scan plane s =
    stream_checked_arc num c o options line scan plane (validate_arc_plane_words line.items plane) s

-- From the test on `has_motion`.
unfoldable pub stream_scanned :
    FloatText
    → StreamCallbacks
    → StreamOptions
    → LowerOptions
    → Line
    → MotionScan
    → StreamState
    → Flow
unfolding stream_motion stream_arc set_plane
stream_scanned num c o options line scan s =
    let plane = value_or scan.line_plane_override s.current_plane in
    if not scan.has_motion
    then set_plane plane s
    else if is_arc_code scan.found_motion
    then stream_arc num c o options line scan plane s
    else stream_motion num c o options line scan plane s

unfoldable pub stream_checked :
    FloatText
    → StreamCallbacks
    → StreamOptions
    → LowerOptions
    → List Diagnostic
    → Line
    → StreamState
    → Flow
unfolding stream_scanned stream_reject
stream_checked num c o options parse_diagnostics line s =
    if should_skip_line line options
    then go_on s
    else if line_has_error parse_diagnostics line.line_index
    then stream_reject c options line (collect_line_errors parse_diagnostics line.line_index) s
    else stream_scanned num c o options line (scan_motion line.items no_motion) s

-- One round of the loop.
unfoldable pub stream_line :
    FloatText
    → StreamCallbacks
    → StreamOptions
    → LowerOptions
    → List Diagnostic
    → Line
    → StreamState
    → Flow
unfolding check_stop stream_checked
stream_line num c o options parse_diagnostics line s =
    then_flow (check_stop o (record s { lines_seen = suc s.lines_seen }))
      (stream_checked num c o options parse_diagnostics line)

unfoldable pub stream_lines :
    FloatText
    → StreamCallbacks
    → StreamOptions
    → LowerOptions
    → List Diagnostic
    → List Line
    → StreamState
    → Flow
unfolding stream_line
stream_lines num c o options parse_diagnostics [] s = go_on s
stream_lines num c o options parse_diagnostics (line ∷ lines) s =
    then_flow (stream_line num c o options parse_diagnostics line s)
      (stream_lines num c o options parse_diagnostics lines)

abbrev pub stream_start : StreamState
stream_start = record {
  events = [];
  cancel_calls = 0;
  lines_seen = 0;
  messages_seen = 0;
  diagnostics_seen = 0;
  current_plane = xy;
}

-- lowerToMessagesStream: the result and the events.
unfoldable pub lower_to_messages_stream :
    FloatText → Program → List Diagnostic → LowerOptions → StreamCallbacks → StreamOptions → Flow
unfolding emit_parse_diagnostics stream_lines
lower_to_messages_stream num program parse_diagnostics options c o =
    then_flow (emit_parse_diagnostics c o parse_diagnostics stream_start)
      (stream_lines num c o options parse_diagnostics program.lines)

-- parseAndLowerStream
unfoldable pub parse_and_lower_stream :
    FloatText
    → (Bytes → ParseResult)
    → Bytes
    → LowerOptions
    → StreamCallbacks
    → StreamOptions
    → Flow
unfolding lower_to_messages_stream
parse_and_lower_stream num parse input options c o =
    let parsed = parse input in
    lower_to_messages_stream num parsed.program parsed.diagnostics options c o
