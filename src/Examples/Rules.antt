-- ===== src/Examples/Rules.antt =====
-- The semantic rules, and numbers as text.
use experimental_gcode_parse.Prelude.{
  ℕ, pos, false, List, [], ◌∷◌, none, some, ◌≡◌, refl, inl, inr, ◌≤◌, ◌&&◌, leb, if◌then◌else◌,
  stoi, front_is, is_empty, substr1,
}
use experimental_gcode_parse.Ast.{Word, LineItem, ParseResult, Diagnostic}
use experimental_gcode_parse.Messages.Words.{scan_motion, no_motion}
use experimental_gcode_parse.Lower.Numbers.{int64_max, is_digits, parse_unsigned_int64_strict}
use experimental_gcode_parse.Lower.Numbers.Bounds.{decimal, parse_unsigned-decimal}
use experimental_gcode_parse.Lower.Words.{mcode_from_word, m_extension}
use experimental_gcode_parse.Lower.Blocks.{LowerState, emit}
use experimental_gcode_parse.Lower.Items.{lower_word}
use experimental_gcode_parse.Lower.Program.{lower_start}
use experimental_gcode_parse.Semantic.Codes.{mcode_max, mcode_shape, is_m_word}
use experimental_gcode_parse.Semantic.Words.{parse_int64_strict}
use experimental_gcode_parse.Semantic.Program.{RuleOptions, make_rules, add_semantic_diagnostics}
use experimental_gcode_parse.Semantic.Conflicts.{HasOneMotion, accepted-HasOneMotion}
use experimental_gcode_parse.Semantic.Motion.{g4_block, motion_exclusivity}
use experimental_gcode_parse.Semantic.Accepted.{
  instruction_for, accepted-mcode, parse_int64_strict-agrees,
}
use experimental_gcode_parse.Semantic.Additions.{IsReport, add_semantic_diagnostics-IsReport}
use experimental_gcode_parse.Examples.Fixtures.{at_line}
use experimental_gcode_parse.Examples.Lines.{num, options, at, plain_word, wrong_arc}

parse_unsigned-decimal_example : parse_unsigned_int64_strict "9223372036854775808" ≡ (
    if is_digits "9223372036854775808" && leb (decimal "9223372036854775808") int64_max
    then some (decimal "9223372036854775808")
    else none)
parse_unsigned-decimal_example = parse_unsigned-decimal "9223372036854775808"

parse_int64_strict-agrees_example : parse_int64_strict "12x" ≡ parse_unsigned_int64_strict "12x"
parse_int64_strict-agrees_example = parse_int64_strict-agrees "12x"

abbrev items_ok : List LineItem
items_ok = plain_word 2 "G" "1" ∷ plain_word 2 "M" "3" ∷ []

abbrev m_word : Word
m_word = record {
  text = "M";
  head = "M";
  value = some "3";
  has_equal = false;
  quoted = false;
  location = at 2;
}

accepted-HasOneMotion_example : HasOneMotion items_ok (scan_motion items_ok no_motion)
unfolding g4_block motion_exclusivity stoi
accepted-HasOneMotion_example = accepted-HasOneMotion num items_ok refl refl

-- The state of a lowering that has not begun.
abbrev nothing_yet : LowerState
nothing_yet = lower_start []

accepted-mcode_example :
    (v : ℕ) × (v ≤ mcode_max)
    × (mcode_from_word m_word (at_line 2)
        ≡ some (record { source = at_line 2; address_extension = none; value = pos v }))
    × (lower_word options (at_line 2) m_word nothing_yet
        ≡ emit (instruction_for options (at_line 2) v none) nothing_yet)
unfolding mcode_shape is_m_word m_extension front_is is_empty substr1
accepted-mcode_example =
    accepted-mcode false items_ok m_word none options (at_line 2) nothing_yet refl (inr (inl refl))
      refl refl

abbrev rule_options : RuleOptions
rule_options = record {
  enable_double_slash_comments = false;
  tool_management = false;
  enable_iso_m98_calls = false;
}

abbrev parsed : ParseResult
parsed = record { program = wrong_arc; diagnostics = [] }

add_semantic_diagnostics-IsReport_example :
    (more : List Diagnostic) × ((add_semantic_diagnostics num rule_options parsed).diagnostics
      ≡ more)
    × IsReport (make_rules num rule_options) wrong_arc.lines more
    × ((add_semantic_diagnostics num rule_options parsed).program ≡ wrong_arc)
add_semantic_diagnostics-IsReport_example =
    add_semantic_diagnostics-IsReport num rule_options parsed
