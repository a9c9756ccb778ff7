-- ===== src/Lower/Axes.antt =====
-- src/ail.cpp: applyLinearMoveAxisValuesFromLine.
use experimental_gcode_parse.Prelude.{
  ℕ, ◌+◌, ◌-◌, String, Bytes, codes, Bool, false, not, ◌&&◌, ◌||◌, List, [], ◌∷◌, Option, none,
  some, if◌then◌else◌, ◌==◌, string_eq, nat_eq, to_upper, length, drop, leb,
}
use experimental_gcode_parse.Floats.{FloatText, Double}
use experimental_gcode_parse.Ast.{Word, LineItem, word, comment}
use experimental_gcode_parse.Lowering.{Pose6}
use experimental_gcode_parse.Ail.{AxisSystemVariableRefs, LinearMove, has_value}
use experimental_gcode_parse.Messages.Family.{parse_double_text}
use experimental_gcode_parse.Executor.Expression.{is_system_variable_name}

-- `text.find(c)`, from the first character on
unfoldable pub find_byte : ℕ → Bytes → Option ℕ
find_byte c [] = none
find_byte c (b ∷ bytes) =
    let rest = find_byte c bytes in
    if b == c then some 0 else elim rest [ none ↦ none | some i ↦ some (i + 1) ]

-- `text.find(c, from) != npos`
unfoldable pub found_from : ℕ → ℕ → Bytes → Bool
unfolding find_byte
found_from c from bytes = has_value (find_byte c (drop from bytes))

-- The tests on the brackets of a system variable.
unfoldable pub brackets_ok : Bytes → Bool
unfolding find_byte found_from
brackets_ok bytes = elim (find_byte b'[' bytes) [
  | none ↦ not (has_value (find_byte b']' bytes))
  | some open_at ↦ elim (find_byte b']' bytes) [
    | none ↦ false
    | some close_at ↦
        not (
          leb close_at open_at
          || not (close_at + 1 == length bytes)
          || found_from b'[' (open_at + 1) bytes
          || found_from b']' (close_at + 1) bytes)
        && not (close_at - open_at - 1 == 0)
  ]
]

-- isAxisHead
unfoldable pub is_axis_head : String → Bool
is_axis_head head =
    head == "X" || head == "Y" || head == "Z" || head == "A" || head == "B" || head == "C"

-- parseSingleSelectorSystemVariableRef
unfoldable pub parse_single_selector_system_variable_ref : Word → Option String
unfolding is_axis_head brackets_ok
parse_single_selector_system_variable_ref w =
    if not (is_axis_head w.head) || not w.has_equal then none else elim w.value [
      | none ↦ none
      | some value ↦
          let candidate = to_upper value in
          if is_system_variable_name candidate && brackets_ok (codes candidate)
          then some candidate
          else none
    ]

-- `*pose_axis = …` with poseAxisByHead
unfoldable pub set_pose_axis : String → Option Double → Pose6 → Pose6
set_pose_axis head v p =
    if head == "X"
    then record p { x = v }
    else if head == "Y"
    then record p { y = v }
    else if head == "Z"
    then record p { z = v }
    else if head == "A"
    then record p { a = v }
    else if head == "B"
    then record p { b = v }
    else if head == "C"
    then record p { c = v }
    else p

-- `*system_variable = …` with axisSystemVariableByHead
unfoldable pub set_axis_system_variable :
    String → Option String → AxisSystemVariableRefs → AxisSystemVariableRefs
set_axis_system_variable head v r =
    if head == "X"
    then record r { x = v }
    else if head == "Y"
    then record r { y = v }
    else if head == "Z"
    then record r { z = v }
    else if head == "A"
    then record r { a = v }
    else if head == "B"
    then record r { b = v }
    else if head == "C"
    then record r { c = v }
    else r

unfoldable pub set_axis : String → Option Double → Option String → LinearMove → LinearMove
unfolding set_pose_axis set_axis_system_variable
set_axis head v ref m = record m {
  target_pose = set_pose_axis head v m.target_pose;
  target_system_variables = set_axis_system_variable head ref m.target_system_variables;
}

-- One round of the loop, on a word with an axis for its head.
unfoldable pub apply_axis_word : FloatText → Word → LinearMove → LinearMove
unfolding parse_double_text parse_single_selector_system_variable_ref set_axis
apply_axis_word num w m = elim (parse_double_text num w.value) [
  | some v ↦ set_axis w.head (some v) none m
  | none ↦ elim (parse_single_selector_system_variable_ref w) [
    | none ↦ m
    | some ref ↦ set_axis w.head none (some ref) m
  ]
]

-- applyLinearMoveAxisValuesFromLine
unfoldable pub apply_linear_move_axis_values : FloatText → List LineItem → LinearMove → LinearMove
unfolding apply_axis_word
apply_linear_move_axis_values num [] m = m
apply_linear_move_axis_values num (comment c ∷ items) m = apply_linear_move_axis_values num items m
apply_linear_move_axis_values num (word w ∷ items) m =
    apply_linear_move_axis_values num items
      (if is_axis_head w.head then apply_axis_word num w m else m)
