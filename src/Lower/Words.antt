-- ===== src/Lower/Words.antt =====
-- src/ail.cpp: toInstruction, and the instructions that a single word or assignment stands for.
use experimental_gcode_parse.Prelude.{
  ℤ, pos, String, Bool, true, false, not, ◌&&◌, ◌||◌, Option, none, some, if◌then◌else◌, ◌==◌,
  string_eq, int_eq, nat_eq, to_string, to_upper, is_empty, front_is, substr1,
}
use experimental_gcode_parse.Floats.{FloatText}
use experimental_gcode_parse.Ast.{
  ExprNode, null, literal, variable, unary, binary, Word, Assignment, is_set,
}
use experimental_gcode_parse.Lowering.{SourceInfo, LowerOptions, ToolChangeMode, value_or}
use experimental_gcode_parse.Ail.{
  AilInstruction, linear_move, arc_move, dwell, MCode, ToolSelect, ToolActionTiming, immediate,
  deferred_until_m6, RapidInterpolationMode, linear, non_linear, ToolRadiusCompMode, off, left,
  right, WorkingPlane, xy, has_value, no_refs,
}
use experimental_gcode_parse.Messages.{ParsedMessage, g0, g1, g2, g3, g4}
use experimental_gcode_parse.Messages.Words.{g_code, plane_of_code}
use experimental_gcode_parse.Lower.Numbers.{all_digits, parse_unsigned_int64_strict}

-- toInstruction
unfoldable pub to_instruction : ParsedMessage → AilInstruction
to_instruction (g0 m) = linear_move (record {
  source = m.source;
  modal = m.modal;
  opcode = "G0";
  target_pose = m.target_pose;
  target_system_variables = no_refs;
  feed = m.feed;
  rapid_mode_effective = none;
})
to_instruction (g1 m) = linear_move (record {
  source = m.source;
  modal = m.modal;
  opcode = "G1";
  target_pose = m.target_pose;
  target_system_variables = no_refs;
  feed = m.feed;
  rapid_mode_effective = none;
})
to_instruction (g2 m) = arc_move (record {
  source = m.source;
  modal = m.modal;
  clockwise = true;
  plane_effective = xy;
  target_pose = m.target_pose;
  arc = m.arc;
  feed = m.feed;
})
to_instruction (g3 m) = arc_move (record {
  source = m.source;
  modal = m.modal;
  clockwise = false;
  plane_effective = xy;
  target_pose = m.target_pose;
  arc = m.arc;
  feed = m.feed;
})
to_instruction (g4 m) = dwell (record {
  source = m.source;
  modal = m.modal;
  dwell_mode = m.dwell_mode;
  dwell_value = m.dwell_value;
})

-- The address extension of an M word: `some none` for the plain head, and `none` where the source
-- returns nothing.
unfoldable pub m_extension : Word → Option (Option ℤ)
m_extension w =
    if is_empty (substr1 w.head)
    then some none
    else if not w.has_equal
    then none
    else elim (parse_unsigned_int64_strict (substr1 w.head)) [
      | none ↦ none
      | some extension ↦ some (some (pos extension))
    ]

-- mCodeFromWord
unfoldable pub mcode_from_word : Word → SourceInfo → Option MCode
unfolding m_extension
mcode_from_word w source = if not (front_is b'M' w.head) then none else elim w.value [
  | none ↦ none
  | some text ↦ elim (parse_unsigned_int64_strict text) [
    | none ↦ none
    | some value ↦ elim (m_extension w) [
      | none ↦ none
      | some extension ↦
          some (record { source = source; address_extension = extension; value = pos value })
    ]
  ]
]

-- rapidTraverseModeFromWord
unfoldable pub rapid_traverse_mode_from_word : Word → Option RapidInterpolationMode
rapid_traverse_mode_from_word w =
    if has_value w.value
    then none
    else if w.head == "RTLION"
    then some linear
    else if w.head == "RTLIOF"
    then some non_linear
    else none

unfoldable pub comp_of_code : ℤ → Option ToolRadiusCompMode
comp_of_code code =
    if code == pos 40
    then some off
    else if code == pos 41
    then some left
    else if code == pos 42
    then some right
    else none

-- toolRadiusCompFromWord
unfoldable pub tool_radius_comp_from_word : Word → Option ToolRadiusCompMode
unfolding g_code comp_of_code
tool_radius_comp_from_word w = elim (g_code w) [ none ↦ none | some code ↦ comp_of_code code ]

-- workingPlaneFromWord
unfoldable pub working_plane_from_word : Word → Option WorkingPlane
unfolding g_code plane_of_code
working_plane_from_word w = elim (g_code w) [ none ↦ none | some code ↦ plane_of_code code ]

-- isToolSelectorHead
unfoldable pub is_tool_selector_head : String → Bool
unfolding all_digits
is_tool_selector_head head =
    if head == "T"
    then true
    else if is_empty (substr1 head) || not (front_is b'T' head)
    then false
    else all_digits (substr1 head)

-- timingFromOptions
unfoldable pub timing_of_mode : ToolChangeMode → ToolActionTiming
timing_of_mode ToolChangeMode.direct_t = immediate
timing_of_mode ToolChangeMode.deferred_m6 = deferred_until_m6

unfoldable pub timing_from_options : LowerOptions → ToolActionTiming
unfolding timing_of_mode
timing_from_options options =
    timing_of_mode (value_or options.tool_change_mode ToolChangeMode.deferred_m6)

-- parseSelectorIndex
unfoldable pub parse_selector_index : String → Option ℤ
parse_selector_index head =
    if is_empty (substr1 head)
    then none
    else elim (parse_unsigned_int64_strict (substr1 head)) [ none ↦ none | some n ↦ some (pos n) ]

-- selectorTextFromExpr
unfoldable pub selector_text_from_expr : FloatText → ExprNode → Option String
selector_text_from_expr num null = none
selector_text_from_expr num (literal v l) =
    if num.ops.eq (num.floor v) v
    then some (to_string (num.to_int64 v))
    else some (num.double_to_string v)
selector_text_from_expr num (variable name is_system l) = some name
selector_text_from_expr num (unary o e l) = none
selector_text_from_expr num (binary o e f l) = none

-- toolSelectFromWord
unfoldable pub tool_select_from_word : Word → SourceInfo → LowerOptions → Option ToolSelect
unfolding is_tool_selector_head parse_selector_index timing_from_options
tool_select_from_word w source options =
    if not (is_tool_selector_head w.head) then none else elim w.value [
      | none ↦ none
      | some value ↦ some (record {
        source = source;
        selector_index = parse_selector_index w.head;
        selector_value = value;
        timing = timing_from_options options;
      })
    ]

-- toolSelectFromAssignment
unfoldable pub tool_select_from_assignment :
    FloatText → Assignment → SourceInfo → LowerOptions → Option ToolSelect
unfolding is_tool_selector_head selector_text_from_expr parse_selector_index timing_from_options
tool_select_from_assignment num assignment source options =
    if not (is_tool_selector_head assignment.lhs) || not (is_set assignment.rhs)
    then none
    else elim (selector_text_from_expr num assignment.rhs) [
      | none ↦ none
      | some selector ↦ some (record {
        source = source;
        selector_index = parse_selector_index assignment.lhs;
        selector_value = to_upper selector;
        timing = timing_from_options options;
      })
    ]

-- The test of toolChangeFromMCode (6) and of returnBoundaryFromMCode (17)
unfoldable pub is_plain_mcode : ℤ → MCode → Bool
is_plain_mcode number m = m.value == number && not (has_value m.address_extension)

-- returnBoundaryFromWord
unfoldable pub is_return_word : Word → Bool
is_return_word w = w.head == "RET" && not (has_value w.value) && not w.has_equal
