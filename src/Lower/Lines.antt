-- ===== src/Lower/Lines.antt =====
-- src/ail.cpp: the rounds of the loop in lowerToAil, by the kind of line.
use experimental_gcode_parse.Prelude.{
  ℕ, String, List, [], ◌∷◌, Option, none, some, if◌then◌else◌, ◌==◌, string_eq, nat_eq,
}
use experimental_gcode_parse.Floats.{FloatText}
use experimental_gcode_parse.Ast.{
  Location, Line, Assignment, KeywordStatement, ConditionStatement, LabelDefinition, GotoStatement,
  IfGotoStatement,
}
use experimental_gcode_parse.Lowering.{
  LowerOptions, SourceInfo, error_at, warning_at, source_from_line,
}
use experimental_gcode_parse.Ail.{AilInstruction, subprogram_call, label, goto_, branch_if}
use experimental_gcode_parse.Messages.{ParsedMessage, message_source}
use experimental_gcode_parse.Lower.Words.{to_instruction}
use experimental_gcode_parse.Lower.Subprograms.{
  InlineParenSuffixInfo, SubprogramDeclarationMatch, SubprogramCallMatch,
  subprogram_declaration_from_line, malformed_proc_declaration_from_line, subprogram_call_from_line,
}
use experimental_gcode_parse.Lower.Blocks.{
  LowerState, emit, note_diagnostic, lower_assignment, lower_if_start, lower_else, lower_endif,
  goto_of, if_goto_of,
}
use experimental_gcode_parse.Lower.Items.{lower_words, lower_found}

-- `message_by_line.emplace`: the first message of a line stays.
unfoldable pub emplace : ℕ → AilInstruction → List (ℕ × AilInstruction) → List (ℕ × AilInstruction)
emplace line i [] = (line, i) ∷ []
emplace line i ((l, j) ∷ entries) =
    if l == line then (l, j) ∷ entries else (l, j) ∷ emplace line i entries

-- The loop that fills message_by_line.
unfoldable pub index_messages :
    List ParsedMessage → List (ℕ × AilInstruction) → List (ℕ × AilInstruction)
unfolding emplace message_source to_instruction
index_messages [] entries = entries
index_messages (m ∷ messages) entries =
    index_messages messages (emplace (message_source m).line (to_instruction m) entries)

-- The warning about a suffix in parentheses, unless it is empty.
unfoldable pub suffix_warning : String → Option InlineParenSuffixInfo → LowerState → LowerState
suffix_warning message none s = s
suffix_warning message (some info) s =
    if info.empty then s else note_diagnostic (warning_at info.location message) s

unfoldable pub lower_declaration : SourceInfo → SubprogramDeclarationMatch → LowerState → LowerState
unfolding suffix_warning
lower_declaration source d s =
    suffix_warning
      "PROC signature parameters are not supported yet; inline parenthesized suffix is ignored"
      d.inline_signature (emit (label source d.name) s)

unfoldable pub lower_call : SubprogramCallMatch → LowerState → LowerState
unfolding suffix_warning
lower_call c s =
    suffix_warning
      "subprogram call arguments are not supported yet; inline parenthesized suffix is ignored"
      c.inline_argument (emit (subprogram_call c.call) s)

-- A line of words that declares nothing.
unfoldable pub lower_call_or_words :
    FloatText
    → LowerOptions
    → List (ℕ × AilInstruction)
    → Line
    → Option SubprogramCallMatch
    → LowerState
    → LowerState
unfolding lower_call lower_words lower_found source_from_line
lower_call_or_words num options message_by_line line (some c) s = lower_call c s
lower_call_or_words num options message_by_line line none s =
    lower_found num message_by_line line
      (lower_words options (source_from_line line options) line.items s)

-- A line of words that is no malformed declaration.
unfoldable pub lower_declaration_or_call :
    FloatText
    → LowerOptions
    → List (ℕ × AilInstruction)
    → Line
    → Option SubprogramDeclarationMatch
    → LowerState
    → LowerState
unfolding lower_call_or_words lower_declaration subprogram_call_from_line source_from_line
lower_declaration_or_call num options message_by_line line (some d) s =
    lower_declaration (source_from_line line options) d s
lower_declaration_or_call num options message_by_line line none s =
    lower_call_or_words num options message_by_line line
      (subprogram_call_from_line line (source_from_line line options) options) s

-- A line of words.
unfoldable pub lower_plain_line :
    FloatText
    → LowerOptions
    → List (ℕ × AilInstruction)
    → Line
    → Option Location
    → LowerState
    → LowerState
unfolding lower_declaration_or_call subprogram_declaration_from_line
lower_plain_line num options message_by_line line (some location) s =
    note_diagnostic (error_at location "malformed PROC declaration; expected PROC <name>") s
lower_plain_line num options message_by_line line none s =
    lower_declaration_or_call num options message_by_line line
      (subprogram_declaration_from_line line) s

-- A line that starts no block and ends none, by its label, its GOTO and its IF GOTO.
unfoldable pub lower_jump_line :
    FloatText
    → LowerOptions
    → List (ℕ × AilInstruction)
    → Line
    → Option LabelDefinition
    → Option GotoStatement
    → Option IfGotoStatement
    → LowerState
    → LowerState
unfolding lower_plain_line goto_of if_goto_of source_from_line malformed_proc_declaration_from_line
lower_jump_line num options message_by_line line (some d) g ig s =
    emit (label (source_from_line line options) d.name) s
lower_jump_line num options message_by_line line none (some g) ig s =
    emit (goto_ (goto_of (source_from_line line options) g)) s
lower_jump_line num options message_by_line line none none (some g) s =
    emit (branch_if (if_goto_of (source_from_line line options) g)) s
lower_jump_line num options message_by_line line none none none s =
    lower_plain_line num options message_by_line line (malformed_proc_declaration_from_line line) s

-- The round for a line with neither assignment nor IF, by its ELSE and its ENDIF; `none` where
-- std::get throws.
unfoldable pub lower_closing_line :
    FloatText
    → LowerOptions
    → List (ℕ × AilInstruction)
    → Line
    → Option KeywordStatement
    → Option KeywordStatement
    → LowerState
    → Option LowerState
unfolding lower_else lower_endif lower_jump_line source_from_line
lower_closing_line num options message_by_line line (some k) endif s =
    lower_else (source_from_line line options) k s
lower_closing_line num options message_by_line line none (some k) s =
    some (lower_endif (source_from_line line options) k s)
lower_closing_line num options message_by_line line none none s = some (
    lower_jump_line num options message_by_line line line.label_definition line.goto_statement
      line.if_goto_statement s)

-- The round behind the tests that skip the line, by its assignment and its IF.
unfoldable pub lower_statement :
    FloatText
    → LowerOptions
    → List (ℕ × AilInstruction)
    → Line
    → Option Assignment
    → Option ConditionStatement
    → LowerState
    → Option LowerState
unfolding lower_assignment lower_if_start lower_closing_line source_from_line
lower_statement num options message_by_line line (some a) b s =
    some (lower_assignment num options (source_from_line line options) a s)
lower_statement num options message_by_line line none (some b) s =
    some (lower_if_start (source_from_line line options) b s)
lower_statement num options message_by_line line none none s =
    lower_closing_line num options message_by_line line line.else_statement line.endif_statement s
