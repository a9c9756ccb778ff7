-- ===== src/Lower/Reasons.antt =====
-- The diagnostics of the message lowering never read "missing ENDIF for IF block".
use mathlib.Core.Path.{subst}
use text.Mathlib.TextLemmas.{cons-append}
use experimental_gcode_parse.Prelude.{
  ℕ, ℤ, String, true, false, not, ◌||◌, List, [], ◌∷◌, some, ◌≡◌, refl, arith, All, All-append,
  if_either, lookup, ◌==◌, string_eq, int_eq, Bool-cases, inl, inr, ap, ==_eq, front_is, is_empty,
  ◌+++◌,
}
use experimental_gcode_parse.Floats.{FloatText}
use experimental_gcode_parse.Ast.{Diagnostic, Word, LineItem, word, comment, Line}
use experimental_gcode_parse.Lowering.{LowerOptions, is_error_of}
use experimental_gcode_parse.Ail.{WorkingPlane, has_value}
use experimental_gcode_parse.Engine.Pending.{has_missing_endif}
use experimental_gcode_parse.Messages.Words.{
  collect_line_errors, validate_arc_word, validate_arc_plane_words, arc_word_allowed,
}
use experimental_gcode_parse.Messages.Family.{
  MotionFamilyLowerer, find_lowerer, create_motion_family_lowerers, index_lowerers,
  arc_lowering_warnings, is_unsupported_arc_head,
}

-- A diagnostic with another message.
abbrev pub IsOther : Diagnostic → Type 0
IsOther d = (d.message == "missing ENDIF for IF block") ≡ false

abbrev pub AreOther : List Diagnostic → Type 0
AreOther ds = All IsOther ds

pub has_missing_endif-AreOther : (ds : List Diagnostic) → has_missing_endif ds ≡ false → AreOther ds
unfolding has_missing_endif
has_missing_endif-AreOther [] h = tt
has_missing_endif-AreOther (d ∷ ds) h =
    (ground (arith, h), has_missing_endif-AreOther ds (ground (arith, h)))

pub AreOther-has_missing_endif : (ds : List Diagnostic) → AreOther ds → has_missing_endif ds ≡ false
unfolding has_missing_endif
AreOther-has_missing_endif [] h = refl
AreOther-has_missing_endif (d ∷ ds) h = rw (h.0) (AreOther-has_missing_endif ds h.1)

pub collect-AreOther :
    (ds : List Diagnostic) (n : ℕ) → AreOther ds → AreOther (collect_line_errors ds n)
unfolding collect_line_errors
collect-AreOther [] n h = tt
collect-AreOther (d ∷ ds) n h =
    if_either AreOther (is_error_of n d) (h.0, collect-AreOther ds n h.1)
      (collect-AreOther ds n h.1)

-- A text that starts with another letter than "missing".
other_text :
    (text : String) → front_is b'm' text ≡ false → (text == "missing ENDIF for IF block") ≡ false
unfolding front_is
other_text text e = elim (Bool-cases (text == "missing ENDIF for IF block")) [
  | inl q ↦
      let f : front_is b'm' text ≡ true =
        ap (front_is b'm') (==_eq text "missing ENDIF for IF block" q) in
      absurd (cc)
  | inr q ↦ q
]

front_is-append :
    (k : ℕ) (s rest : String) → is_empty s ≡ false → front_is k (s +++ rest) ≡ front_is k s
unfolding front_is is_empty
front_is-append k String.[] rest e = absurd (cc)
front_is-append k (String.◌∷◌ c s) rest e = ap (front_is k) (cons-append c s rest)

arc_text : (rest : String) → front_is b'm' ("arc center word '" +++ rest) ≡ false
unfolding front_is is_empty
arc_text rest = front_is-append b'm' "arc center word '" rest refl

warning_text :
    (rest : String) → front_is b'm' ("lowering ignored unsupported arc word: " +++ rest) ≡ false
unfolding front_is is_empty
warning_text rest = front_is-append b'm' "lowering ignored unsupported arc word: " rest refl

validate_arc_word-AreOther :
    (plane : WorkingPlane) (w : Word) → AreOther (validate_arc_word plane w)
unfolding validate_arc_word
validate_arc_word-AreOther plane w =
    if_either AreOther
      (not (w.head == "I" || w.head == "J" || w.head == "K") || not (has_value w.value)) tt
      (if_either AreOther (arc_word_allowed plane w.head) tt (other_text _ (arc_text _), tt))

pub validate-AreOther :
    (items : List LineItem) (plane : WorkingPlane) → AreOther (validate_arc_plane_words items plane)
unfolding validate_arc_plane_words
validate-AreOther [] plane = tt
validate-AreOther (comment c ∷ items) plane = validate-AreOther items plane
validate-AreOther (word w ∷ items) plane =
    All-append IsOther (validate_arc_word plane w) _ (validate_arc_word-AreOther plane w)
      (validate-AreOther items plane)

warnings-AreOther : (items : List LineItem) → AreOther (arc_lowering_warnings items)
unfolding arc_lowering_warnings
warnings-AreOther [] = tt
warnings-AreOther (comment c ∷ items) = warnings-AreOther items
warnings-AreOther (word w ∷ items) =
    if_either AreOther (is_unsupported_arc_head w.head)
      (other_text _ (warning_text w.head), warnings-AreOther items) (warnings-AreOther items)

-- Every lowerer adds other diagnostics only.
abbrev AddsOther : ℤ × MotionFamilyLowerer → Type 0
AddsOther (code, l) = (line : Line) (o : LowerOptions) → AreOther (l.lower line o).1

lookup-AddsOther :
    (code : ℤ) (m : List (ℤ × MotionFamilyLowerer)) (l : MotionFamilyLowerer)
    → lookup code m ≡ some l
    → All AddsOther m
    → AddsOther (code, l)
unfolding lookup
lookup-AddsOther code [] l e h = absurd (ground arith)
lookup-AddsOther code ((c, k) ∷ m) l e h = elim (Bool-cases (c == code)) [
  | inl q ↦
      let f : some k ≡ some l = rw (q) at e in
      let g : k ≡ l = ground (arith, f) in subst (λ x. AddsOther (code, x)) g h.0
  | inr q ↦ let f : lookup code m ≡ some l = rw (q) at e in lookup-AddsOther code m l f h.1
]

pub find_lowerer-AddsOther :
    (num : FloatText) (code : ℤ) (l : MotionFamilyLowerer)
    → find_lowerer num code ≡ some l
    → AddsOther (code, l)
unfolding find_lowerer index_lowerers create_motion_family_lowerers
find_lowerer-AddsOther num code l e =
    lookup-AddsOther code (index_lowerers (create_motion_family_lowerers num) []) l e (
      (λ line o. tt),
      (
        (λ line o. tt),
        (
          (λ line o. warnings-AreOther line.items),
          ((λ line o. warnings-AreOther line.items), ((λ line o. tt), tt)),
        ),
      ),
    )
