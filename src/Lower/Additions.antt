-- ===== src/Lower/Additions.antt =====
-- What a line that opens and closes no block adds: instructions of that line, and nothing else that
-- the blocks depend on.
use experimental_gcode_parse.Prelude.{
  ℕ, String, Bool, true, false, List, [], ◌∷◌, Option, none, some, ◌≡◌, refl, arith, inl, inr, All,
  All-imp, ◌==◌, string_eq, nat_eq, if_either, to_upper, if◌then◌else◌, sym,
}
use experimental_gcode_parse.Floats.{FloatText}
use experimental_gcode_parse.Ast.{
  Line, LineItem, Word, Location, Assignment, LabelDefinition, GotoStatement, IfGotoStatement,
}
use experimental_gcode_parse.Lowering.{LowerOptions, SourceInfo, source_from_line}
use experimental_gcode_parse.Ail.{AilInstruction, branch_if, source_of, ToolSelect}
use experimental_gcode_parse.Lower.Blocks.{
  LowerState, goto_of, if_goto_of, lower_assignment, emit_assignment,
}
use experimental_gcode_parse.Lower.Subprograms.{
  InlineParenSuffixInfo, SubprogramDeclarationMatch, SubprogramCallMatch,
  subprogram_declaration_from_line, subprogram_call_from_line, call_of_words, repeated_call,
  words_of, call_at, is_count_of, parse_subprogram_repeat_count,
}
use experimental_gcode_parse.Lower.Items.{emit_motion, lower_found}
use experimental_gcode_parse.Lower.Lines.{
  suffix_warning, lower_declaration, lower_call, lower_call_or_words, lower_declaration_or_call,
  lower_plain_line, lower_jump_line,
}
use experimental_gcode_parse.Lower.Frame.{
  Adds, Adds-nothing, Adds-one, Adds-then, Adds-imp, IsPlain, IsOf, IsPlain-IsOf, Entry,
  lookup-Entry, jump_targets, written_targets,
}
use experimental_gcode_parse.Lower.WordAdditions.{
  AddsPlain, tool_select_from_assignment-source, lower_words-Adds, complete_motion-IsPlain,
}

emit_motion-Adds :
    (line : ℕ) (num : FloatText) (items : List LineItem) (o : Option AilInstruction)
    (s : LowerState)
    → ((i : AilInstruction) → o ≡ some i → IsPlain line i)
    → AddsPlain line s (emit_motion num items o s)
unfolding emit_motion
emit_motion-Adds line num items none s h = Adds-nothing s s refl refl refl
emit_motion-Adds line num items (some i) s h =
    Adds-one s _ (complete_motion-IsPlain line num items s i (h i refl))

suffix_warning-Adds :
    (line : ℕ) (message : String) (o : Option InlineParenSuffixInfo) (s : LowerState)
    → AddsPlain line s (suffix_warning message o s)
unfolding suffix_warning
suffix_warning-Adds line message none s = Adds-nothing s s refl refl refl
suffix_warning-Adds line message (some info) s =
    if_either (AddsPlain line s) info.empty (Adds-nothing s s refl refl refl)
      (Adds-nothing s _ refl refl refl)

call_choice-source :
    (a b : Bool) (source : SourceInfo) (x y c : SubprogramCallMatch)
    → x.call.source.line ≡ source.line
    → y.call.source.line ≡ source.line
    → (if a then some x else if b then some y else none) ≡ some c
    → c.call.source.line ≡ source.line
call_choice-source true b source x y c h k e = ground arith
call_choice-source false true source x y c h k e = ground arith
call_choice-source false false source x y c h k e = ground arith

repeated_call-source :
    (items : List LineItem) (source : SourceInfo) (w0 w1 : Word) (c : SubprogramCallMatch)
    → repeated_call items source w0 w1 ≡ some c
    → c.call.source.line ≡ source.line
unfolding repeated_call
repeated_call-source items source w0 w1 c e =
    call_choice-source (is_count_of w0 w1) (is_count_of w1 w0) source
      (call_at items source (parse_subprogram_repeat_count w0) w1 1)
      (call_at items source (parse_subprogram_repeat_count w1) w0 0) c refl refl e

call_of_words-source :
    (items : List LineItem) (source : SourceInfo) (options : LowerOptions) (ws : List Word)
    (c : SubprogramCallMatch)
    → call_of_words items source options ws ≡ some c
    → c.call.source.line ≡ source.line
unfolding call_of_words
call_of_words-source items source options [] c e = ground arith
call_of_words-source items source options (w0 ∷ []) c e = ground arith
call_of_words-source items source options (w0 ∷ w1 ∷ []) c e =
    ground (arith, repeated_call-source items source w0 w1 c)
call_of_words-source items source options (w0 ∷ w1 ∷ w2 ∷ ws) c e = ground arith

lower_call-Adds :
    (num : FloatText) (options : LowerOptions) (es : List (ℕ × AilInstruction)) (line : Line)
    (o : Option SubprogramCallMatch) (s : LowerState)
    → ((c : SubprogramCallMatch) → o ≡ some c → c.call.source.line ≡ line.line_index)
    → All Entry es
    → AddsPlain line.line_index s (lower_call_or_words num options es line o s)
unfolding lower_call_or_words lower_call lower_found source_of source_from_line
lower_call-Adds num options es line (some c) s k h =
    Adds-then (Adds-one s _ (record { line_of = k c refl; targets = refl }))
      (suffix_warning-Adds line.line_index _ c.inline_argument _)
lower_call-Adds num options es line none s k h =
    Adds-then (lower_words-Adds options (source_from_line line options) line.items s) (
      emit_motion-Adds line.line_index num line.items _ _
        (λ i e. lookup-Entry line.line_index es i h e))

declaration-Adds :
    (num : FloatText) (options : LowerOptions) (es : List (ℕ × AilInstruction)) (line : Line)
    (o : Option SubprogramDeclarationMatch) (s : LowerState)
    → All Entry es
    → AddsPlain line.line_index s (lower_declaration_or_call num options es line o s)
unfolding lower_declaration_or_call lower_declaration subprogram_call_from_line source_of
    source_from_line
declaration-Adds num options es line (some d) s h =
    Adds-then (Adds-one s _ (record { line_of = refl; targets = refl }))
      (suffix_warning-Adds line.line_index _ d.inline_signature _)
declaration-Adds num options es line none s h =
    lower_call-Adds num options es line _ s
      (call_of_words-source line.items (source_from_line line options) options
        (words_of line.items))
      h

emit_assignment-Adds :
    (source : SourceInfo) (a : Assignment) (o : Option ToolSelect) (s : LowerState)
    → ((t : ToolSelect) → o ≡ some t → t.source.line ≡ source.line)
    → AddsPlain source.line s (emit_assignment source a o s)
unfolding emit_assignment source_of
emit_assignment-Adds source a (some t) s h =
    Adds-one s _ (record { line_of = h t refl; targets = refl })
emit_assignment-Adds source a none s h = Adds-one s _ (record { line_of = refl; targets = refl })

lower_plain_line-Adds :
    (num : FloatText) (options : LowerOptions) (es : List (ℕ × AilInstruction)) (line : Line)
    (malformed : Option Location) (s : LowerState)
    → All Entry es
    → AddsPlain line.line_index s (lower_plain_line num options es line malformed s)
unfolding lower_plain_line
lower_plain_line-Adds num options es line (some location) s h = Adds-nothing s _ refl refl refl
lower_plain_line-Adds num options es line none s h =
    declaration-Adds num options es line (subprogram_declaration_from_line line) s h

written-goto :
    (line : Line) (g : GotoStatement)
    → some g ≡ line.goto_statement
    → written_targets line ≡ g.target ∷ []
written-goto line g e = rw (← e)

if_goto-targets :
    (line : Line) (options : LowerOptions) (g : IfGotoStatement)
    → none ≡ line.goto_statement
    → some g ≡ line.if_goto_statement
    → jump_targets (branch_if (if_goto_of (source_from_line line options) g)) ≡ written_targets line
unfolding if_goto_of goto_of
if_goto-targets line options g e f = ground (arith, e, f)

jump-Adds :
    (num : FloatText) (options : LowerOptions) (es : List (ℕ × AilInstruction)) (line : Line)
    (d : Option LabelDefinition) (g : Option GotoStatement) (ig : Option IfGotoStatement)
    (s : LowerState)
    → g ≡ line.goto_statement
    → ig ≡ line.if_goto_statement
    → All Entry es
    → Adds (IsOf line) s (lower_jump_line num options es line d g ig s)
unfolding lower_jump_line source_of source_from_line goto_of if_goto_of
jump-Adds num options es line (some d) g ig s e f h =
    Adds-one s _ (record { line_of = refl; targets = inl refl })
jump-Adds num options es line none (some g) ig s e f h =
    Adds-one s _ (record { line_of = refl; targets = inr (sym (written-goto line g e)) })
jump-Adds num options es line none none (some g) s e f h =
    Adds-one s _ (record { line_of = refl; targets = inr (if_goto-targets line options g e f) })
jump-Adds num options es line none none none s e f h =
    Adds-imp (λ xs p. All-imp xs (IsPlain-IsOf line) p)
      (lower_plain_line-Adds num options es line _ s h)

pub lower_jump_line-Adds :
    (num : FloatText) (options : LowerOptions) (es : List (ℕ × AilInstruction)) (line : Line)
    (s : LowerState)
    → All Entry es
    → Adds (IsOf line) s (
        lower_jump_line num options es line line.label_definition line.goto_statement
          line.if_goto_statement s)
lower_jump_line-Adds num options es line s h =
    jump-Adds num options es line line.label_definition line.goto_statement line.if_goto_statement s
      refl refl h

pub lower_assignment-Adds :
    (num : FloatText) (options : LowerOptions) (source : SourceInfo) (a : Assignment)
    (s : LowerState)
    → AddsPlain source.line s (lower_assignment num options source a s)
unfolding lower_assignment
lower_assignment-Adds num options source a s =
    if_either (AddsPlain source.line s) (to_upper a.lhs == "PROC") (Adds-nothing s _ refl refl refl)
      (emit_assignment-Adds source a _ s (tool_select_from_assignment-source num a source options))
