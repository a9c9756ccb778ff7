-- ===== src/Messages/Errors.antt =====
-- Which errors a line has, along the loops that lower messages: only the arc check adds any, and
-- those stand at the line itself.
use mathlib.Core.Path.{subst}
use experimental_gcode_parse.Prelude.{
  ℕ, ℤ, true, false, not, ◌||◌, List, [], ◌∷◌, ◌++◌, some, ◌≡◌, refl, arith, All, All-append,
  if_either, lookup, ◌==◌, string_eq, int_eq, nat_eq, ap, Bool-cases, inl, inr, ==_refl,
}
use experimental_gcode_parse.Floats.{FloatText}
use experimental_gcode_parse.Ast.{Diagnostic, Word, LineItem, word, comment, Line, Severity}
use experimental_gcode_parse.Lowering.{LowerOptions, is_error, is_error_of, line_has_error}
use experimental_gcode_parse.Ail.{WorkingPlane, has_value}
use experimental_gcode_parse.Messages.Words.{
  collect_line_errors, validate_arc_word, validate_arc_plane_words, arc_word_allowed,
}
use experimental_gcode_parse.Messages.Family.{
  MotionFamilyLowerer, find_lowerer, create_motion_family_lowerers, index_lowerers,
  arc_lowering_warnings, is_unsupported_arc_head,
}
use experimental_gcode_parse.Messages.Callbacks.{any_error}

-- The words of a line stand on the line, as the parser places them.
abbrev pub ItemAt : ℕ → LineItem → Type 0
ItemAt n (word w) = w.location.line ≡ n
ItemAt n (comment c) = Unit

abbrev pub IsLocated : Line → Type 0
IsLocated line = All (ItemAt line.line_index) line.items

-- An error on the line.
abbrev pub ErrorAt : ℕ → Diagnostic → Type 0
ErrorAt n d = (d.severity ≡ Severity.error) × (d.location.line ≡ n)

pub collect-append :
    (xs ys : List Diagnostic) (n : ℕ)
    → collect_line_errors (xs ++ ys) n ≡ collect_line_errors xs n ++ collect_line_errors ys n
unfolding collect_line_errors
collect-append [] ys n = refl
collect-append (x ∷ xs) ys n = elim (Bool-cases (is_error_of n x)) [
  | inl q ↦ rw (q, collect-append xs ys n) refl
  | inr q ↦ rw (q, collect-append xs ys n) refl
]

-- A line has an error exactly if errors are collected for it.
pub line_has_error-collect :
    (ds : List Diagnostic) (n : ℕ)
    → line_has_error ds n ≡ elim (collect_line_errors ds n) [ [] ↦ false | d ∷ more ↦ true ]
unfolding line_has_error collect_line_errors
line_has_error-collect [] n = refl
line_has_error-collect (d ∷ ds) n = elim (Bool-cases (is_error_of n d)) [
  | inl q ↦ rw (q) refl
  | inr q ↦ rw (q) (line_has_error-collect ds n)
]

is_error_of-ErrorAt : (n : ℕ) (d : Diagnostic) → ErrorAt n d → is_error_of n d ≡ true
unfolding is_error_of is_error
is_error_of-ErrorAt n d h = ground (arith, h, ==_refl n)

pub collect-ErrorAt :
    (n : ℕ) (ds : List Diagnostic) → All (ErrorAt n) ds → collect_line_errors ds n ≡ ds
unfolding collect_line_errors
collect-ErrorAt n [] h = refl
collect-ErrorAt n (d ∷ ds) h =
    rw (is_error_of-ErrorAt n d h.0) (ap (λ l. d ∷ l) (collect-ErrorAt n ds h.1))

pub any_error-ErrorAt :
    (n : ℕ) (ds : List Diagnostic)
    → All (ErrorAt n) ds
    → any_error ds ≡ elim ds [ [] ↦ false | d ∷ more ↦ true ]
unfolding any_error is_error
any_error-ErrorAt n [] h = refl
any_error-ErrorAt n (d ∷ ds) h = rw (h.0.0) refl

validate_arc_word-ErrorAt :
    (n : ℕ) (plane : WorkingPlane) (w : Word)
    → w.location.line ≡ n
    → All (ErrorAt n) (validate_arc_word plane w)
unfolding validate_arc_word
validate_arc_word-ErrorAt n plane w e =
    if_either (All (ErrorAt n))
      (not (w.head == "I" || w.head == "J" || w.head == "K") || not (has_value w.value)) tt
      (if_either (All (ErrorAt n)) (arc_word_allowed plane w.head) tt ((refl, e), tt))

pub validate-ErrorAt :
    (n : ℕ) (items : List LineItem) (plane : WorkingPlane)
    → All (ItemAt n) items
    → All (ErrorAt n) (validate_arc_plane_words items plane)
unfolding validate_arc_plane_words
validate-ErrorAt n [] plane h = tt
validate-ErrorAt n (comment c ∷ items) plane h = validate-ErrorAt n items plane h.1
validate-ErrorAt n (word w ∷ items) plane h =
    All-append (ErrorAt n) (validate_arc_word plane w) _ (validate_arc_word-ErrorAt n plane w h.0)
      (validate-ErrorAt n items plane h.1)

-- A lowerer adds no error.
abbrev Harmless : ℤ × MotionFamilyLowerer → Type 0
Harmless (code, l) =
    (line : Line) (o : LowerOptions) (n : ℕ) → collect_line_errors (l.lower line o).1 n ≡ []

warnings-harmless :
    (items : List LineItem) (n : ℕ) → collect_line_errors (arc_lowering_warnings items) n ≡ []
unfolding arc_lowering_warnings collect_line_errors is_error_of is_error
warnings-harmless [] n = refl
warnings-harmless (comment c ∷ items) n = warnings-harmless items n
warnings-harmless (word w ∷ items) n = elim (Bool-cases (is_unsupported_arc_head w.head)) [
  | inl q ↦ rw (q) (warnings-harmless items n)
  | inr q ↦ rw (q) (warnings-harmless items n)
]

lookup-Harmless :
    (code : ℤ) (m : List (ℤ × MotionFamilyLowerer)) (l : MotionFamilyLowerer)
    → lookup code m ≡ some l
    → All Harmless m
    → Harmless (code, l)
unfolding lookup
lookup-Harmless code [] l e h = absurd (ground arith)
lookup-Harmless code ((c, k) ∷ m) l e h = elim (Bool-cases (c == code)) [
  | inl q ↦
      let f : some k ≡ some l = rw (q) at e in
      let g : k ≡ l = ground (arith, f) in subst (λ x. Harmless (code, x)) g h.0
  | inr q ↦ let f : lookup code m ≡ some l = rw (q) at e in lookup-Harmless code m l f h.1
]

pub find_lowerer-Harmless :
    (num : FloatText) (code : ℤ) (l : MotionFamilyLowerer)
    → find_lowerer num code ≡ some l
    → (line : Line) (o : LowerOptions) (n : ℕ) → collect_line_errors (l.lower line o).1 n ≡ []
unfolding find_lowerer index_lowerers create_motion_family_lowerers collect_line_errors
find_lowerer-Harmless num code l e =
    lookup-Harmless code (index_lowerers (create_motion_family_lowerers num) []) l e (
      (λ line o n. refl),
      (
        (λ line o n. refl),
        (
          (λ line o n. warnings-harmless line.items n),
          ((λ line o n. warnings-harmless line.items n), ((λ line o n. refl), tt)),
        ),
      ),
    )
