-- ===== src/Semantic/Shapes.antt =====
-- src/semantic_rules.cpp: the rules on N words, skip levels, assignments, PROC lines and comments.
use experimental_gcode_parse.Prelude.{
  pos, String, Bool, false, not, ◌&&◌, ◌||◌, List, [], ◌∷◌, Option, none, some, if◌then◌else◌, ◌==◌,
  string_eq, int_eq, leb_ℤ, is_empty, front_is, substr1,
}
use experimental_gcode_parse.Ast.{
  Diagnostic, Location, Word, LineItem, word, comment, Line, Assignment,
}
use experimental_gcode_parse.Lowering.{error_at, value_or}
use experimental_gcode_parse.Ail.{has_value}
use experimental_gcode_parse.Lower.Subprograms.{words_of}
use experimental_gcode_parse.Semantic.Words.{
  is_unsigned_integer_text, equals_ignore_ascii_case, is_target_word,
}

-- `word.value.has_value() && test(*word.value)`
abbrev pub value_is : (String → Bool) → Option String → Bool
value_is test none = false
value_is test (some text) = test text

-- LineNumberWordRule::apply
unfoldable pub line_number_word : List LineItem → Option Diagnostic
unfolding is_unsigned_integer_text
line_number_word [] = none
line_number_word (comment c ∷ items) = line_number_word items
line_number_word (word w ∷ items) =
    let rest = line_number_word items in
    if not (w.head == "N")
    then rest
    else if not (value_is is_unsigned_integer_text w.value)
    then some (error_at w.location "invalid N-address; use unsigned integer form like N100")
    else some (error_at w.location "N-address must be at block start (before statement)")

abbrev pub skip_level_error : Line → Diagnostic
skip_level_error line =
    error_at (value_or line.block_delete_level_location (record { line = 0; column = 0 }))
      "invalid skip level; use /0 through /9"

-- BlockSkipLevelRule::apply
unfoldable pub block_skip_level : Line → Option Diagnostic
block_skip_level line =
    if not line.block_delete || not (has_value line.block_delete_level_raw)
    then none
    else elim line.block_delete_level [
      | none ↦ some (skip_level_error line)
      | some level ↦
          if not (leb_ℤ (pos 0) level) || not (leb_ℤ level (pos 9))
          then some (skip_level_error line)
          else none
    ]

-- AssignmentShapeRule::apply
unfoldable pub assignment_shape : List LineItem → Option Diagnostic
assignment_shape [] = none
assignment_shape (comment c ∷ items) = assignment_shape items
assignment_shape (word w ∷ items) =
    let rest = assignment_shape items in
    if not (has_value w.value) || w.has_equal || is_empty (substr1 w.head)
    then rest
    else some (error_at w.location "use '=' for multi-letter or numeric-extension address values")

abbrev pub malformed_proc : Location → Option Diagnostic
malformed_proc location =
    some (error_at location "malformed PROC declaration; expected PROC <name>")

-- ProcDeclarationShapeRule::apply, behind the word PROC
unfoldable pub proc_tail : Word → List Word → Option Diagnostic
unfolding is_target_word
proc_tail w0 [] = malformed_proc w0.location
proc_tail w0 (w1 ∷ []) = if not (is_target_word w1) then malformed_proc w1.location else none
proc_tail w0 (w1 ∷ w2 ∷ ws) =
    if not (is_target_word w1) then malformed_proc w1.location else malformed_proc w2.location

unfoldable pub proc_words : List Word → Option Diagnostic
unfolding proc_tail equals_ignore_ascii_case
proc_words [] = none
proc_words (w0 ∷ ws) =
    if not (equals_ignore_ascii_case w0.head "PROC")
    then none
    else if w0.has_equal || has_value w0.value
    then malformed_proc w0.location
    else proc_tail w0 ws

unfoldable pub proc_assignment : Option Assignment → List Word → Option Diagnostic
unfolding proc_words equals_ignore_ascii_case
proc_assignment none ws = proc_words ws
proc_assignment (some a) ws =
    if equals_ignore_ascii_case a.lhs "PROC" then malformed_proc a.location else proc_words ws

-- ProcDeclarationShapeRule::apply
unfoldable pub proc_declaration_shape : Line → Option Diagnostic
unfolding proc_assignment
proc_declaration_shape line = proc_assignment line.assignment (words_of line.items)

-- DoubleSlashCommentRule::apply
unfoldable pub double_slash_comment : Bool → List LineItem → Option Diagnostic
double_slash_comment enabled [] = none
double_slash_comment enabled (word w ∷ items) = double_slash_comment enabled items
double_slash_comment enabled (comment c ∷ items) =
    let rest = double_slash_comment enabled items in
    if enabled || not (front_is b'/' c.text && front_is b'/' (substr1 c.text))
    then rest
    else some (error_at c.location "double-slash comments require compatibility mode")
