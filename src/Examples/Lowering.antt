-- ===== src/Examples/Lowering.antt =====
-- What lowering makes of a program with an IF and of a program with a wrong arc.
use experimental_gcode_parse.Prelude.{
  false, [], Option, none, some, ◌≡◌, refl, All, IsIn, ◌⊎◌, stoi, front_is, is_empty, substr1,
}
use experimental_gcode_parse.Lowering.{should_skip_line, line_has_error}
use experimental_gcode_parse.Ail.{AilResult, source_of}
use experimental_gcode_parse.Messages.Words.{scan_motion, validate_arc_plane_words}
use experimental_gcode_parse.Messages.Batch.{lower_to_messages}
use experimental_gcode_parse.Messages.Stream.{lower_to_messages_stream}
use experimental_gcode_parse.Messages.Events.{all_callbacks, no_limits}
use experimental_gcode_parse.Messages.Agreement.{IsReportOf, stream-IsReportOf}
use experimental_gcode_parse.Lower.Numbers.{parse_unsigned_int64_strict}
use experimental_gcode_parse.Lower.Words.{
  tool_select_from_word, working_plane_from_word, tool_radius_comp_from_word,
  rapid_traverse_mode_from_word,
}
use experimental_gcode_parse.Lower.Program.{lower_to_ail}
use experimental_gcode_parse.Lower.Frame.{jump_targets}
use experimental_gcode_parse.Lower.Open.{label_names}
use experimental_gcode_parse.Lower.Loop.{all_written, IsLowered}
use experimental_gcode_parse.Lower.Returns.{
  lower_to_ail-returns, lower_to_ail-IsLowered, lower_to_ail-IsResolved,
}
use experimental_gcode_parse.Lower.Waiting.{lower_to_ail-never_waits}
use experimental_gcode_parse.Engine.Pending.{has_missing_endif}
use experimental_gcode_parse.Packets.{lower_ail_to_packets}
use experimental_gcode_parse.Packets.Numbering.{IsPacketsOf, lower_ail_to_packets-IsPacketsOf}
use experimental_gcode_parse.Examples.Lines.{num, options, branching, wrong_arc}

abbrev nothing_lowered : AilResult
nothing_lowered = record { instructions = []; diagnostics = []; rejected_lines = [] }

abbrev or_nothing : Option AilResult → AilResult
or_nothing none = nothing_lowered
or_nothing (some r) = r

abbrev lowered : AilResult
unfolding lower_to_ail
lowered = or_nothing (lower_to_ail num branching [] options)

abbrev rejected : AilResult
unfolding lower_to_ail
rejected = or_nothing (lower_to_ail num wrong_arc [] options)

branching-lower_to_ail : lower_to_ail num branching [] options ≡ some lowered
unfolding lower_to_ail lower_to_messages should_skip_line line_has_error scan_motion stoi front_is
    tool_select_from_word is_empty substr1 working_plane_from_word tool_radius_comp_from_word
    rapid_traverse_mode_from_word parse_unsigned_int64_strict
branching-lower_to_ail = refl

wrong_arc_lowered : lower_to_ail num wrong_arc [] options ≡ some rejected
unfolding lower_to_ail lower_to_messages should_skip_line line_has_error scan_motion stoi front_is
    tool_select_from_word is_empty substr1 working_plane_from_word tool_radius_comp_from_word
    rapid_traverse_mode_from_word parse_unsigned_int64_strict validate_arc_plane_words
wrong_arc_lowered = refl

no_missing : has_missing_endif lowered.diagnostics ≡ false
unfolding has_missing_endif lower_to_ail lower_to_messages should_skip_line line_has_error
    scan_motion stoi front_is tool_select_from_word is_empty substr1 working_plane_from_word
    tool_radius_comp_from_word rapid_traverse_mode_from_word parse_unsigned_int64_strict
no_missing = refl

lower_to_ail-returns_example : (r : AilResult) × (lower_to_ail num branching [] options ≡ some r)
lower_to_ail-returns_example = lower_to_ail-returns num branching [] options

lower_to_ail-IsLowered_example :
    All
      (λ i. IsLowered wrong_arc.lines options rejected.rejected_lines (source_of i).line)
      rejected.instructions
lower_to_ail-IsLowered_example =
    lower_to_ail-IsLowered num wrong_arc [] options rejected wrong_arc_lowered

lower_to_ail-IsResolved_example :
    All
      (λ i.
        All
          (λ t. IsIn t (label_names lowered.instructions) ⊎ IsIn t (all_written branching.lines))
          (jump_targets i))
      lowered.instructions
lower_to_ail-IsResolved_example =
    lower_to_ail-IsResolved num branching [] options lowered branching-lower_to_ail no_missing

lower_to_ail-never_waits_example :
    All (λ r. has_missing_endif r.reasons ≡ false) rejected.rejected_lines
lower_to_ail-never_waits_example =
    lower_to_ail-never_waits num wrong_arc [] options rejected no_errors wrong_arc_lowered
  where
    no_errors : has_missing_endif [] ≡ false
    no_errors = unfold has_missing_endif in refl

stream-IsReportOf_example :
    IsReportOf
      (lower_to_messages num wrong_arc [] options)
      (lower_to_messages_stream num wrong_arc [] options all_callbacks no_limits)
stream-IsReportOf_example =
    stream-IsReportOf num wrong_arc [] options ((refl, tt), ((refl, (refl, tt)), ((refl, tt), tt)))

lower_ail_to_packets-IsPacketsOf_example : IsPacketsOf lowered (lower_ail_to_packets lowered)
lower_ail_to_packets-IsPacketsOf_example = lower_ail_to_packets-IsPacketsOf lowered
