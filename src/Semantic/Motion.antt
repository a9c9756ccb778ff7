-- ===== src/Semantic/Motion.antt =====
-- src/semantic_rules.cpp: the rules on motion words, G4BlockRule, MotionExclusivityRule and
-- G1CoordinateModeRule.
use experimental_gcode_parse.Prelude.{
  ℤ, pos, Bool, false, not, ◌&&◌, ◌||◌, List, [], ◌∷◌, Option, none, some, if◌then◌else◌, ◌==◌,
  string_eq, int_eq,
}
use experimental_gcode_parse.Floats.{FloatText}
use experimental_gcode_parse.Ast.{Diagnostic, Word, LineItem, word, comment}
use experimental_gcode_parse.Lowering.{error_at}
use experimental_gcode_parse.Ail.{has_value}
use experimental_gcode_parse.Messages.Family.{parse_double_text}
use experimental_gcode_parse.Semantic.Words.{is_motion_word, is_cartesian_word, is_polar_word}

-- One round of MotionExclusivityRule on a word with a motion code; `before` is the motion code seen
-- before. The rest of the loop is passed along.
unfoldable pub exclusive_word :
    Word → Option ℤ → Option ℤ → (Option ℤ → Option Diagnostic) → Option Diagnostic
exclusive_word w none before rest = rest before
exclusive_word w (some code) none rest = if code == pos 4 then rest none else rest (some code)
exclusive_word w (some code) (some motion_code) rest =
    if code == pos 4
    then rest (some motion_code)
    else if not (code == motion_code)
    then some
        (error_at w.location "multiple motion commands in one line; choose only one of G0/G1/G2/G3")
    else rest (some code)

-- MotionExclusivityRule::apply
unfoldable pub motion_exclusivity : List LineItem → Option ℤ → Option Diagnostic
unfolding exclusive_word is_motion_word
motion_exclusivity [] before = none
motion_exclusivity (comment c ∷ items) before = motion_exclusivity items before
motion_exclusivity (word w ∷ items) before =
    exclusive_word w (is_motion_word w) before (motion_exclusivity items)

-- The four pointers of G4BlockRule.
pub record G4Words : Type 0 where
  pub g4_word : Option Word
  pub f_word : Option Word
  pub s_word : Option Word
  pub first_other_word : Option Word

-- `if (!first_other_word) first_other_word = &word`
unfoldable pub note_other : Word → G4Words → G4Words
note_other w g = elim g.first_other_word [
  | none ↦ record g { first_other_word = some w }
  | some o ↦ g
]

-- Whether a word is a G4.
unfoldable pub is_g4_code : Option ℤ → Bool
is_g4_code none = false
is_g4_code (some code) = code == pos 4

-- One round of the loop of G4BlockRule.
unfoldable pub g4_step : Word → G4Words → G4Words
unfolding note_other is_motion_word is_g4_code
g4_step w g =
    if is_g4_code (is_motion_word w)
    then if has_value g.g4_word then note_other w g else record g { g4_word = some w }
    else if w.head == "F"
    then if has_value g.f_word then note_other w g else record g { f_word = some w }
    else if w.head == "S"
    then if has_value g.s_word then note_other w g else record g { s_word = some w }
    else note_other w g

unfoldable pub g4_scan : List LineItem → G4Words → G4Words
unfolding g4_step
g4_scan [] g = g
g4_scan (comment c ∷ items) g = g4_scan items g
g4_scan (word w ∷ items) g = g4_scan items (g4_step w g)

-- The check of the dwell value.
unfoldable pub check_dwell : FloatText → Word → Option Diagnostic
check_dwell num w =
    if has_value (parse_double_text num w.value)
    then none
    else some (error_at w.location "G4 dwell value must be numeric")

unfoldable pub g4_values : FloatText → Word → Option Word → Option Word → Option Diagnostic
unfolding check_dwell
g4_values num g none none =
    some (error_at g.location "G4 dwell requires F (seconds) or S (revolutions)")
g4_values num g (some f) (some s) =
    some (error_at s.location "G4 dwell must use either F (seconds) or S (revolutions), not both")
g4_values num g (some f) none = check_dwell num f
g4_values num g none (some s) = check_dwell num s

unfoldable pub g4_judge : FloatText → G4Words → Option Word → Option Word → Option Diagnostic
unfolding g4_values
g4_judge num g none other = none
g4_judge num g (some w) (some other) = some (
    error_at other.location
      "program G4 in a separate block; use only G4 with one of F (seconds) or S (revolutions)")
g4_judge num g (some w) none = g4_values num w g.f_word g.s_word

abbrev pub no_words : G4Words
no_words = record { g4_word = none; f_word = none; s_word = none; first_other_word = none }

-- G4BlockRule::apply
unfoldable pub g4_block : FloatText → List LineItem → Option Diagnostic
unfolding g4_judge g4_scan
g4_block num items = let g = g4_scan items no_words in g4_judge num g g.g4_word g.first_other_word

-- The variables of G1CoordinateModeRule; `motion` is the last motion code seen.
pub record G1Words : Type 0 where
  pub motion : Option ℤ
  pub has_cartesian : Bool
  pub has_polar : Bool

abbrev is_g1 : Option ℤ → Bool
is_g1 none = false
is_g1 (some code) = code == pos 1

-- G1CoordinateModeRule::apply
unfoldable pub g1_coordinate_mode : List LineItem → G1Words → Option Diagnostic
unfolding is_motion_word is_cartesian_word is_polar_word
g1_coordinate_mode [] g = none
g1_coordinate_mode (comment c ∷ items) g = g1_coordinate_mode items g
g1_coordinate_mode (word w ∷ items) g =
    let code = is_motion_word w in
    let seen : G1Words = if has_value code then record g { motion = code } else record g {
      has_cartesian = is_cartesian_word w || g.has_cartesian;
      has_polar = is_polar_word w || g.has_polar;
    } in
    let rest = g1_coordinate_mode items seen in
    if not (has_value code) && (seen.has_cartesian && seen.has_polar && is_g1 seen.motion)
    then some (
        error_at w.location
          "mixed cartesian (X/Y/Z/A) and polar (AP/RP) words in G1 line; choose one coordinate mode")
    else rest
