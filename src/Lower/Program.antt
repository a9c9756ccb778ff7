-- ===== src/Lower/Program.antt =====
-- src/ail.cpp: lowerToAil and parseAndLowerAil.
use experimental_gcode_parse.Prelude.{
  ℕ, Bytes, Bool, not, ◌&&◌, List, [], ◌∷◌, ◌++◌, Option, none, some, if◌then◌else◌, ◌==◌,
  string_eq, nat_eq, leb, get_elem?,
}
use experimental_gcode_parse.Floats.{FloatText}
use experimental_gcode_parse.Ast.{
  Diagnostic, Location, Line, LineItem, Word, word, comment, ParseResult, Assignment,
  KeywordStatement, ConditionStatement, LabelDefinition, GotoStatement, IfGotoStatement,
}
use experimental_gcode_parse.Ast
use experimental_gcode_parse.Lowering.{
  LowerOptions, RejectedLine, error_at, line_has_error, should_skip_line,
}
use experimental_gcode_parse.Ail.{AilInstruction, AilResult, xy}
use experimental_gcode_parse.Messages.Batch.{lower_to_messages}
use experimental_gcode_parse.Lower.Blocks.{LowerState, IfLowerContext, get_branch}
use experimental_gcode_parse.Lower.Lines.{index_messages, lower_statement}

-- One round of the loop over the lines.
unfoldable pub lower_line :
    FloatText → LowerOptions → List (ℕ × AilInstruction) → Line → LowerState → Option LowerState
unfolding lower_statement
lower_line num options message_by_line line s =
    if should_skip_line line options
    then some s
    else if line_has_error s.diagnostics line.line_index
    then some s
    else lower_statement num options message_by_line line line.assignment
        line.if_block_start_statement s

abbrev pub and_then {ℓ κ} : {A : Type ℓ} {B : Type κ} → Option A → (A → Option B) → Option B
and_then none f = none
and_then (some a) f = f a

abbrev pub reaches : ℕ → Line → Bool
reaches stop_line line = not (stop_line == 0) && leb stop_line line.line_index

-- The loop over the lines, which breaks off at the first rejected line.
unfoldable pub lower_lines :
    FloatText
    → LowerOptions
    → List (ℕ × AilInstruction)
    → ℕ
    → List Line
    → LowerState
    → Option LowerState
unfolding lower_line
lower_lines num options message_by_line stop_line [] s = some s
lower_lines num options message_by_line stop_line (line ∷ lines) s =
    let rest =
      and_then (lower_line num options message_by_line line s)
        (lower_lines num options message_by_line stop_line lines) in
    if reaches stop_line line then some s else rest

unfoldable pub stop_line_of : List RejectedLine → ℕ
stop_line_of [] = 0
stop_line_of (r ∷ rejected) = r.source.line

abbrev pub lower_start : List Diagnostic → LowerState
lower_start diagnostics = record {
  instructions = [];
  diagnostics = diagnostics;
  if_stack = [];
  generated_label_counter = 0;
  current_rapid_mode = none;
  current_working_plane = xy;
}

-- The diagnostics of the loop over the blocks that are still open, the outermost first.
unfoldable pub missing_endifs : List AilInstruction → List IfLowerContext → Option (List Diagnostic)
unfolding get_branch
missing_endifs instructions [] = some []
missing_endifs instructions (ctx ∷ outer) = and_then (missing_endifs instructions outer) (λ ds.
    and_then (get_elem? instructions ctx.branch_index) (λ i. and_then (get_branch i) (λ b. some (
      ds
      ++ error_at (record { line = b.source.line; column = 1 }) "missing ENDIF for IF block"
        ∷ []))))

-- lowerToAil: `none` where std::get throws
unfoldable pub lower_to_ail :
    FloatText → Ast.Program → List Diagnostic → LowerOptions → Option AilResult
unfolding lower_lines index_messages stop_line_of missing_endifs
lower_to_ail num program parse_diagnostics options =
    let lowered = lower_to_messages num program parse_diagnostics options in
    and_then
      (lower_lines num options (index_messages lowered.messages [])
        (stop_line_of lowered.rejected_lines) program.lines (lower_start lowered.diagnostics))
      (λ s. and_then (missing_endifs s.instructions s.if_stack) (λ ds. some (record {
        instructions = s.instructions;
        diagnostics = s.diagnostics ++ ds;
        rejected_lines = lowered.rejected_lines;
      })))

-- parseAndLowerAil; the parser takes enable_iso_m98_calls from the options.
unfoldable pub parse_and_lower_ail :
    FloatText → (Bytes → Bool → ParseResult) → Bytes → LowerOptions → Option AilResult
unfolding lower_to_ail
parse_and_lower_ail num parse input options =
    let parsed = parse input options.enable_iso_m98_calls in
    lower_to_ail num parsed.program parsed.diagnostics options
