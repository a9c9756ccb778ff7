-- ===== src/Messages/Family.antt =====
-- src/lowering_family_common.h, lowering_family_g0.cpp to lowering_family_g4.cpp and
-- lowering_family_factory.cpp: the lowering of one line with motion.
use experimental_gcode_parse.Prelude.{
  ℤ, pos, String, ◌+++◌, Bool, true, false, ◌&&◌, ◌||◌, List, [], ◌∷◌, Option, none, some,
  if◌then◌else◌, ◌==◌, string_eq, int_eq, lookup, insert,
}
use experimental_gcode_parse.Floats.{Double, FloatText, zero_double}
use experimental_gcode_parse.Ast.{Diagnostic, LineItem, word, comment, Line}
use experimental_gcode_parse.Lowering.{
  LowerOptions, ModalState, ModalGroupId, Pose6, ArcParams, no_pose, no_arc, DwellMode, warning_at,
  source_from_line,
}
use experimental_gcode_parse.Messages.{
  ParsedMessage, LinearMessage, ArcMessage, DwellMessage, g0, g1, g2, g3, g4,
}

-- parseDoubleText: the value, where it returns true
unfoldable pub parse_double_text : FloatText → Option String → Option Double
parse_double_text num none = none
parse_double_text num (some text) = num.stod text

-- What fillPoseAndFeed writes.
pub record Filled : Type 0 where
  pub pose : Pose6
  pub feed : Option Double
  pub arc : ArcParams

abbrev pub nothing_filled : Filled
nothing_filled = record { pose = no_pose; feed = none; arc = no_arc }

-- The assignment for a word whose value reads as a double. The flag says whether the caller passes
-- an ArcParams.
unfoldable pub fill_word : Bool → String → Double → Filled → Filled
fill_word with_arc head v f =
    if head == "X"
    then record f { pose = record f.pose { x = some v } }
    else if head == "Y"
    then record f { pose = record f.pose { y = some v } }
    else if head == "Z"
    then record f { pose = record f.pose { z = some v } }
    else if head == "A"
    then record f { pose = record f.pose { a = some v } }
    else if head == "B"
    then record f { pose = record f.pose { b = some v } }
    else if head == "C"
    then record f { pose = record f.pose { c = some v } }
    else if head == "F"
    then record f { feed = some v }
    else if with_arc && head == "I"
    then record f { arc = record f.arc { i = some v } }
    else if with_arc && head == "J"
    then record f { arc = record f.arc { j = some v } }
    else if with_arc && head == "K"
    then record f { arc = record f.arc { k = some v } }
    else if with_arc && (head == "R" || head == "CR")
    then record f { arc = record f.arc { r = some v } }
    else f

-- fillPoseAndFeed
unfoldable pub fill_pose_and_feed : FloatText → Bool → List LineItem → Filled → Filled
unfolding parse_double_text fill_word
fill_pose_and_feed num with_arc [] f = f
fill_pose_and_feed num with_arc (comment c ∷ items) f = fill_pose_and_feed num with_arc items f
fill_pose_and_feed num with_arc (word w ∷ items) f =
    fill_pose_and_feed num with_arc items
      (elim (parse_double_text num w.value) [ none ↦ f | some v ↦ fill_word with_arc w.head v f ])

unfoldable pub is_unsupported_arc_head : String → Bool
is_unsupported_arc_head head =
    head == "AR"
    || head == "AP"
    || head == "RP"
    || head == "CIP"
    || head == "CT"
    || head == "I1"
    || head == "J1"
    || head == "K1"

-- addArcLoweringWarnings: the diagnostics that it adds
unfoldable pub arc_lowering_warnings : List LineItem → List Diagnostic
unfolding is_unsupported_arc_head
arc_lowering_warnings [] = []
arc_lowering_warnings (comment c ∷ items) = arc_lowering_warnings items
arc_lowering_warnings (word w ∷ items) =
    if is_unsupported_arc_head w.head
    then warning_at w.location ("lowering ignored unsupported arc word: " +++ w.head)
      ∷ arc_lowering_warnings items
    else arc_lowering_warnings items

unfoldable pub motion_modal : String → ModalState
motion_modal code = record { group = ModalGroupId.motion; code = code; updates_state = true }

unfoldable pub linear_message : FloatText → String → Line → LowerOptions → LinearMessage
unfolding fill_pose_and_feed motion_modal
linear_message num code line options =
    let f = fill_pose_and_feed num false line.items nothing_filled in
    record {
      source = source_from_line line options;
      modal = motion_modal code;
      target_pose = f.pose;
      feed = f.feed;
    }

unfoldable pub arc_message : FloatText → String → Line → LowerOptions → ArcMessage
unfolding fill_pose_and_feed motion_modal
arc_message num code line options =
    let f = fill_pose_and_feed num true line.items nothing_filled in
    record {
      source = source_from_line line options;
      modal = motion_modal code;
      target_pose = f.pose;
      arc = f.arc;
      feed = f.feed;
    }

-- The loop of G4Lowerer::lower, which stops at the first F or S word that reads as a double.
unfoldable pub dwell_value_of : FloatText → List LineItem → DwellMode × Double
unfolding parse_double_text
dwell_value_of num [] = (DwellMode.seconds, zero_double)
dwell_value_of num (comment c ∷ items) = dwell_value_of num items
dwell_value_of num (word w ∷ items) =
    let rest = dwell_value_of num items in
    elim (parse_double_text num w.value) [
      | none ↦ rest
      | some v ↦
          if w.head == "F"
          then (DwellMode.seconds, v)
          else if w.head == "S"
          then (DwellMode.revolutions, v)
          else rest
    ]

unfoldable pub dwell_message : FloatText → Line → LowerOptions → DwellMessage
unfolding dwell_value_of
dwell_message num line options = record {
  source = source_from_line line options;
  modal = record { group = ModalGroupId.non_modal; code = "G4"; updates_state = false };
  dwell_mode = (dwell_value_of num line.items).0;
  dwell_value = (dwell_value_of num line.items).1;
}

-- MotionFamilyLowerer: `lower` returns the message and the diagnostics that it adds.
pub record MotionFamilyLowerer : Type 0 where
  pub motion_code : ℤ
  pub lower : Line → LowerOptions → ParsedMessage × List Diagnostic

-- createMotionFamilyLowerers, with the classes G0Lowerer to G4Lowerer
unfoldable pub create_motion_family_lowerers : FloatText → List MotionFamilyLowerer
unfolding linear_message arc_message dwell_message arc_lowering_warnings
create_motion_family_lowerers num =
    record { motion_code = pos 0; lower = λ line o. (g0 (linear_message num "G0" line o), []) }
    ∷ record { motion_code = pos 1; lower = λ line o. (g1 (linear_message num "G1" line o), []) }
    ∷ record {
      motion_code = pos 2;
      lower = λ line o. (g2 (arc_message num "G2" line o), arc_lowering_warnings line.items);
    }
    ∷ record {
      motion_code = pos 3;
      lower = λ line o. (g3 (arc_message num "G3" line o), arc_lowering_warnings line.items);
    }
    ∷ record { motion_code = pos 4; lower = λ line o. (g4 (dwell_message num line o), []) }
    ∷ []

-- indexLowerers
unfoldable pub index_lowerers :
    List MotionFamilyLowerer → List (ℤ × MotionFamilyLowerer) → List (ℤ × MotionFamilyLowerer)
unfolding insert
index_lowerers [] indexed = indexed
index_lowerers (lowerer ∷ lowerers) indexed =
    index_lowerers lowerers (insert lowerer.motion_code lowerer indexed)

-- `indexed_lowerers.find(found_motion)`
unfoldable pub find_lowerer : FloatText → ℤ → Option MotionFamilyLowerer
unfolding create_motion_family_lowerers index_lowerers lookup
find_lowerer num code = lookup code (index_lowerers (create_motion_family_lowerers num) [])
