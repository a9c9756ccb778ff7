-- ===== src/Messages/Words.antt =====
-- src/messages.cpp: what the words of a line say about motion and plane.
use experimental_gcode_parse.Prelude.{
  ℕ, ℤ, pos, negsuc, String, ◌+++◌, Bool, true, false, not, ◌&&◌, ◌||◌, List, [], ◌∷◌, ◌++◌, Option,
  none, some, if◌then◌else◌, ◌==◌, string_eq, int_eq, stoi, leb_ℤ,
}
use experimental_gcode_parse.Ast.{Diagnostic, Word, LineItem, word, comment}
use experimental_gcode_parse.Lowering.{error_at, is_error_of, value_or}
use experimental_gcode_parse.Ail.{WorkingPlane, xy, zx, yz, has_value}

-- collectLineErrors
unfoldable pub collect_line_errors : List Diagnostic → ℕ → List Diagnostic
unfolding is_error_of
collect_line_errors [] line = []
collect_line_errors (diag ∷ diagnostics) line =
    if is_error_of line diag
    then diag ∷ collect_line_errors diagnostics line
    else collect_line_errors diagnostics line

-- The code of a `G` word, `none` where the source leaves early or `std::stoi` throws.
unfoldable pub g_code : Word → Option ℤ
g_code w =
    if not (w.head == "G") then none else elim w.value [ none ↦ none | some text ↦ stoi text ]

-- motionCode: -1 for a word that has no code
unfoldable pub motion_code : Word → ℤ
unfolding g_code
motion_code w = value_or (g_code w) (negsuc 0)

-- planeFromWord
unfoldable pub plane_of_code : ℤ → Option WorkingPlane
plane_of_code code =
    if code == pos 17
    then some xy
    else if code == pos 18
    then some zx
    else if code == pos 19
    then some yz
    else none

unfoldable pub plane_from_word : Word → Option WorkingPlane
unfolding g_code plane_of_code
plane_from_word w = elim (g_code w) [ none ↦ none | some code ↦ plane_of_code code ]

-- Whether an arc centre word belongs to the plane.
unfoldable pub arc_word_allowed : WorkingPlane → String → Bool
arc_word_allowed xy head = head == "I" || head == "J"
arc_word_allowed zx head = head == "I" || head == "K"
arc_word_allowed yz head = head == "J" || head == "K"

unfoldable pub plane_name : WorkingPlane → String
plane_name xy = "G17 (XY)"
plane_name zx = "G18 (ZX)"
plane_name yz = "G19 (YZ)"

-- One round of validateArcPlaneWords: the diagnostics that a word adds.
unfoldable pub validate_arc_word : WorkingPlane → Word → List Diagnostic
unfolding arc_word_allowed plane_name
validate_arc_word plane w =
    if not (w.head == "I" || w.head == "J" || w.head == "K") || not (has_value w.value)
    then []
    else if arc_word_allowed plane w.head
    then []
    else error_at w.location (
        "arc center word '"
        +++ (w.head +++ ("' does not match active working plane " +++ plane_name plane)))
      ∷ []

-- validateArcPlaneWords: the diagnostics that it adds.
unfoldable pub validate_arc_plane_words : List LineItem → WorkingPlane → List Diagnostic
unfolding validate_arc_word
validate_arc_plane_words [] plane = []
validate_arc_plane_words (word w ∷ items) plane =
    validate_arc_word plane w ++ validate_arc_plane_words items plane
validate_arc_plane_words (comment c ∷ items) plane = validate_arc_plane_words items plane

-- The variables of the loop over the items of a line.
pub record MotionScan : Type 0 where
  pub has_motion : Bool
  pub found_motion : ℤ
  pub line_plane_override : Option WorkingPlane

abbrev pub no_motion : MotionScan
no_motion = record { has_motion = false; found_motion = pos 0; line_plane_override = none }

unfoldable pub override_plane : Option WorkingPlane → MotionScan → MotionScan
override_plane none scan = scan
override_plane (some plane) scan = record scan { line_plane_override = some plane }

-- The loop, which breaks off at a second motion code that differs from the first.
unfoldable pub scan_motion : List LineItem → MotionScan → MotionScan
unfolding plane_from_word motion_code override_plane
scan_motion [] scan = scan
scan_motion (comment c ∷ items) scan = scan_motion items scan
scan_motion (word w ∷ items) scan =
    let code = motion_code w in
    let seen = override_plane (plane_from_word w) scan in
    let in_range = leb_ℤ (pos 0) code && leb_ℤ code (pos 4) in
    let rest =
      scan_motion items
        (if in_range then record seen { has_motion = true; found_motion = code } else seen) in
    if in_range && (seen.has_motion && not (code == seen.found_motion))
    then record seen { found_motion = negsuc 0 }
    else rest
