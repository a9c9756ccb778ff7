-- ===== src/Semantic/Codes.antt =====
-- src/semantic_rules.cpp: MCodeShapeRule and ToolSelectorShapeRule.
use experimental_gcode_parse.Prelude.{
  ℕ, String, Bool, true, false, not, ◌&&◌, ◌||◌, List, [], ◌∷◌, Option, none, some, if◌then◌else◌,
  ◌==◌, string_eq, nat_eq, leb, is_empty, front_is, substr1, to_string,
}
use experimental_gcode_parse.Floats.{FloatText}
use experimental_gcode_parse.Ast.{
  Diagnostic, Word, LineItem, word, comment, Assignment, ExprNode, null, literal, variable, unary,
  binary,
}
use experimental_gcode_parse.Lowering.{error_at}
use experimental_gcode_parse.Ail.{has_value}
use experimental_gcode_parse.Lower.Words.{is_tool_selector_head}
use experimental_gcode_parse.Semantic.Words.{is_unsigned_integer_text, parse_int64_strict}
use experimental_gcode_parse.Semantic.Shapes.{value_is}

-- kMCodeMax
abbrev pub mcode_max : ℕ
mcode_max = 2147483647

-- The inner loop of MCodeShapeRule: whether the line has a P word with a value.
unfoldable pub has_p_word : List LineItem → Bool
has_p_word [] = false
has_p_word (comment c ∷ items) = has_p_word items
has_p_word (word w ∷ items) = w.head == "P" && has_value w.value || has_p_word items

unfoldable pub is_plain_only : ℕ → Bool
is_plain_only v = v == 0 || v == 1 || v == 2 || v == 17 || v == 30

-- The checks of MCodeShapeRule on a value in range.
unfoldable pub check_m_value : Bool → List LineItem → Word → ℕ → Option Diagnostic
unfolding is_plain_only has_p_word
check_m_value iso line_items w value =
    let has_extension = not (is_empty (substr1 w.head)) in
    if has_extension && not w.has_equal
    then some (error_at w.location "extended M address requires '=' form: M<ext>=<value>")
    else if has_extension && is_plain_only value
    then some (error_at w.location "extended M address not allowed for M0/M1/M2/M17/M30")
    else if not iso && (value == 98 && (not has_extension && has_p_word line_items))
    then some (error_at w.location "M98 subprogram call requires ISO compatibility mode")
    else none

abbrev pub out_of_range : Word → Option Diagnostic
out_of_range w = some (error_at w.location "M function value out of range (0..2147483647)")

unfoldable pub check_m_number : Bool → List LineItem → Word → Option ℕ → Option Diagnostic
unfolding check_m_value
check_m_number iso line_items w none = out_of_range w
check_m_number iso line_items w (some value) =
    if leb value mcode_max then check_m_value iso line_items w value else out_of_range w

unfoldable pub check_m_text : Bool → List LineItem → Word → Option String → Option Diagnostic
unfolding check_m_number parse_int64_strict
check_m_text iso line_items w none = some (error_at w.location "M function requires integer value")
check_m_text iso line_items w (some text) =
    check_m_number iso line_items w (parse_int64_strict text)

-- Whether the rule looks at a word: an M head with no extension, or a numeric one.
unfoldable pub is_m_word : Word → Bool
unfolding is_unsigned_integer_text
is_m_word w =
    front_is b'M' w.head && (is_empty (substr1 w.head) || is_unsigned_integer_text (substr1 w.head))

-- The first diagnostic of two.
abbrev pub or_else : Option Diagnostic → Option Diagnostic → Option Diagnostic
or_else none other = other
or_else (some d) other = some d

-- MCodeShapeRule::apply, the loop; `line_items` are all items of the line.
unfoldable pub mcode_shape : Bool → List LineItem → List LineItem → Option Diagnostic
unfolding check_m_text is_m_word
mcode_shape iso line_items [] = none
mcode_shape iso line_items (comment c ∷ items) = mcode_shape iso line_items items
mcode_shape iso line_items (word w ∷ items) =
    or_else (if is_m_word w then check_m_text iso line_items w w.value else none)
      (mcode_shape iso line_items items)

-- isValidToolSelector
unfoldable pub is_valid_tool_selector : Bool → Word → Bool
unfolding is_unsigned_integer_text
is_valid_tool_selector tool_management w =
    if tool_management
    then w.has_equal && value_is (λ text. not (is_empty text)) w.value
    else if not (is_empty (substr1 w.head))
    then w.has_equal && value_is is_unsigned_integer_text w.value
    else value_is is_unsigned_integer_text w.value

-- invalidSelectorMessage
unfoldable pub invalid_selector_message : Bool → String
invalid_selector_message true =
    "tool-management selector requires '=' forms: T=<location|name> or T<n>=<location|name>"
invalid_selector_message false =
    "tool selector requires numeric forms: T<number>, T=<number>, or T<n>=<number>"

-- assignmentValueText; the caller dereferences the pointer unchecked, and the parser sets it.
unfoldable pub assignment_value_text : FloatText → ExprNode → Option String
assignment_value_text num null = none
assignment_value_text num (literal v l) =
    if num.ops.ne (num.floor v) v
    then some (num.double_to_string v)
    else some (to_string (num.to_int64 v))
assignment_value_text num (variable name is_system l) = some name
assignment_value_text num (unary o e l) = none
assignment_value_text num (binary o e f l) = none

-- isValidToolSelectorAssignment
unfoldable pub is_valid_tool_selector_assignment : FloatText → Bool → Assignment → Bool
unfolding assignment_value_text is_unsigned_integer_text
is_valid_tool_selector_assignment num tool_management a =
    value_is
      (λ text. if tool_management then not (is_empty text) else is_unsigned_integer_text text)
      (assignment_value_text num a.rhs)

-- The loop of ToolSelectorShapeRule.
unfoldable pub tool_selector_words : Bool → List LineItem → Option Diagnostic
unfolding is_valid_tool_selector invalid_selector_message is_tool_selector_head
tool_selector_words tool_management [] = none
tool_selector_words tool_management (comment c ∷ items) = tool_selector_words tool_management items
tool_selector_words tool_management (word w ∷ items) =
    let rest = tool_selector_words tool_management items in
    if not (is_tool_selector_head w.head) || is_valid_tool_selector tool_management w
    then rest
    else some (error_at w.location (invalid_selector_message tool_management))

-- ToolSelectorShapeRule::apply
unfoldable pub tool_selector_of :
    FloatText → Bool → Option Assignment → List LineItem → Option Diagnostic
unfolding tool_selector_words is_valid_tool_selector_assignment invalid_selector_message
tool_selector_of num tool_management none items = tool_selector_words tool_management items
tool_selector_of num tool_management (some a) items =
    if is_tool_selector_head a.lhs
    then if is_valid_tool_selector_assignment num tool_management a
      then none
      else some (error_at a.location (invalid_selector_message tool_management))
    else tool_selector_words tool_management items
