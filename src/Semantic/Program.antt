-- ===== src/Semantic/Program.antt =====
-- src/semantic_rules.cpp: makeRules and addSemanticDiagnostics.
use experimental_gcode_parse.Prelude.{
  ℤ, String, ◌+++◌, Bool, false, not, ◌||◌, List, [], ◌∷◌, ◌++◌, Option, none, some, if◌then◌else◌,
  ◌==◌, string_eq, int_eq, to_string,
}
use experimental_gcode_parse.Floats.{FloatText}
use experimental_gcode_parse.Ast.{
  Diagnostic, Line, LineNumber, GotoStatement, IfGotoStatement, ParseResult,
}
use experimental_gcode_parse.Lowering.{warning_at}
use experimental_gcode_parse.Semantic.Motion.{
  g4_block, motion_exclusivity, g1_coordinate_mode, G1Words,
}
use experimental_gcode_parse.Semantic.Shapes.{
  line_number_word, block_skip_level, assignment_shape, proc_declaration_shape,
  double_slash_comment,
}
use experimental_gcode_parse.Semantic.Codes.{mcode_shape, tool_selector_of}

-- The three flags of addSemanticDiagnostics.
pub record RuleOptions : Type 0 where
  pub enable_double_slash_comments : Bool
  pub tool_management : Bool
  pub enable_iso_m98_calls : Bool

-- LineSemanticRule
abbrev pub LineSemanticRule : Type 0
LineSemanticRule = Line → Option Diagnostic

abbrev pub no_g1_words : G1Words
no_g1_words = record { motion = none; has_cartesian = false; has_polar = false }

-- makeRules
unfoldable pub make_rules : FloatText → RuleOptions → List LineSemanticRule
make_rules num o =
    (λ line. g4_block num line.items)
    ∷ (λ line. motion_exclusivity line.items none)
    ∷ (λ line. g1_coordinate_mode line.items no_g1_words)
    ∷ (λ line. line_number_word line.items)
    ∷ block_skip_level
    ∷ proc_declaration_shape
    ∷ (λ line. assignment_shape line.items)
    ∷ (λ line. mcode_shape o.enable_iso_m98_calls line.items line.items)
    ∷ (λ line. tool_selector_of num o.tool_management line.assignment line.items)
    ∷ (λ line. double_slash_comment o.enable_double_slash_comments line.items)
    ∷ []

-- The loop over the rules, which breaks off at the first one that adds a diagnostic: what it adds.
unfoldable pub apply_rules : List LineSemanticRule → Line → List Diagnostic
apply_rules [] line = []
apply_rules (rule ∷ rules) line =
    let rest = apply_rules rules line in elim (rule line) [ none ↦ rest | some d ↦ d ∷ [] ]

abbrev pub is_number_kind : String → Bool
is_number_kind kind = kind == "line_number" || kind == "number"

abbrev pub is_number_jump : Option GotoStatement → Bool
is_number_jump none = false
is_number_jump (some g) = is_number_kind g.target_kind

unfoldable pub is_number_if_jump : Option IfGotoStatement → Bool
is_number_if_jump none = false
is_number_if_jump (some g) =
    is_number_kind g.then_branch.target_kind || is_number_jump g.else_branch

-- The first loop, for has_line_number_target_jump.
unfoldable pub has_line_number_target_jump : List Line → Bool
unfolding is_number_if_jump
has_line_number_target_jump [] = false
has_line_number_target_jump (line ∷ lines) =
    is_number_jump line.goto_statement
    || is_number_if_jump line.if_goto_statement
    || has_line_number_target_jump lines

unfoldable pub contains_number : ℤ → List ℤ → Bool
contains_number n [] = false
contains_number n (m ∷ ms) = m == n || contains_number n ms

unfoldable pub duplicate_warning : LineNumber → Diagnostic
duplicate_warning n =
    warning_at n.location (
      "duplicate N-address N" +++ (to_string n.value +++ "; jumps by line number may be ambiguous"))

-- The check of the line's number: what it adds, and the numbers seen. Of first_line_number_at only
-- the keys are read.
unfoldable pub check_number : Bool → Option LineNumber → List ℤ → List Diagnostic × List ℤ
unfolding contains_number duplicate_warning
check_number jumps none seen = ([], seen)
check_number jumps (some n) seen =
    if not jumps
    then ([], seen)
    else if contains_number n.value seen
    then (duplicate_warning n ∷ [], seen)
    else ([], n.value ∷ seen)

-- The second loop.
unfoldable pub check_lines :
    List LineSemanticRule → Bool → List Line → List ℤ → List Diagnostic → List Diagnostic
unfolding check_number apply_rules
check_lines rules jumps [] seen diagnostics = diagnostics
check_lines rules jumps (line ∷ lines) seen diagnostics =
    let checked = check_number jumps line.line_number seen in
    check_lines rules jumps lines checked.1 ((diagnostics ++ checked.0) ++ apply_rules rules line)

-- addSemanticDiagnostics
unfoldable pub add_semantic_diagnostics : FloatText → RuleOptions → ParseResult → ParseResult
unfolding check_lines make_rules has_line_number_target_jump
add_semantic_diagnostics num o result = record result {
  diagnostics =
      check_lines (make_rules num o) (has_line_number_target_jump result.program.lines)
        result.program.lines [] result.diagnostics;
}
