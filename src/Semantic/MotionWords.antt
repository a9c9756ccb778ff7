-- ===== src/Semantic/MotionWords.antt =====
-- Motion words as the rules and the lowering read them, and the pointers of the rule on G4.
use experimental_gcode_parse.Prelude.{
  ℤ, pos, negsuc, Bool, true, false, ◌&&◌, List, [], ◌∷◌, none, some, ◌≡◌, refl, arith,
  if◌then◌else◌, ◌==◌, string_eq, int_eq, leb_ℤ, Bool-cases, Option-cases, inl, inr, ==_eq, ◌∙◌,
  ◌⊎◌,
}
use experimental_gcode_parse.Floats.{FloatText}
use experimental_gcode_parse.Ast.{Word, LineItem, word, comment}
use experimental_gcode_parse.Ail.{has_value}
use experimental_gcode_parse.Messages.Words.{g_code, motion_code}
use experimental_gcode_parse.Semantic.Words.{is_motion_word, motion_of_code}
use experimental_gcode_parse.Semantic.Motion.{
  G4Words, note_other, is_g4_code, g4_step, g4_scan, g4_judge, g4_block, no_words,
}

-- The code of a word as the lowering reads it is the one of the rules.
unfoldable pub in_range : ℤ → Bool
in_range code = leb_ℤ (pos 0) code && leb_ℤ code (pos 4)

motion_of_code-cases :
    (code : ℤ) → motion_of_code code ≡ (if in_range code then some code else none)
unfolding motion_of_code in_range
motion_of_code-cases (pos n) = ground arith
motion_of_code-cases (negsuc n) = ground arith

-- A word is no motion word for either, or the same one for both.
pub word-code :
    (w : Word)
    → ((is_motion_word w ≡ none) × (in_range (motion_code w) ≡ false))
      ⊎ ((c : ℤ) × (is_motion_word w ≡ some c) × (motion_code w ≡ c) × (in_range c ≡ true))
unfolding is_motion_word motion_code in_range
word-code w = elim (Option-cases (g_code w)) [
  | inl q ↦ inl (ground (arith, q), ground (arith, q))
  | inr q ↦ elim (Bool-cases (in_range q.0)) [
    | inl p ↦
        let e : motion_of_code q.0 ≡ some q.0 = motion_of_code-cases q.0 ∙ rw (p) refl in
        inr (q.0, ground (arith, q.1, e), ground (arith, q.1), p)
    | inr p ↦
        let e : motion_of_code q.0 ≡ none = motion_of_code-cases q.0 ∙ rw (p) refl in
        inl (ground (arith, q.1, e), ground (arith, q.1, p))
  ]
]

motion-head :
    (w : Word) (c : ℤ)
    → is_motion_word w ≡ some c
    → ((w.head == "F") ≡ false) × ((w.head == "S") ≡ false)
unfolding is_motion_word g_code
motion-head w c e = elim (Bool-cases (w.head == "G")) [
  | inl q ↦ let h : w.head ≡ "G" = ==_eq w.head "G" q in (rw (h) refl, rw (h) refl)
  | inr q ↦ absurd (ground (arith, q, e))
]

-- The pointers of the G4 rule are only ever set.
pub g4_step-keeps_g4 :
    (w : Word) (g : G4Words) → has_value g.g4_word ≡ true → has_value (g4_step w g).g4_word ≡ true
unfolding g4_step note_other
g4_step-keeps_g4 w g h = ground (arith, h)

pub g4_step-keeps_other :
    (w : Word) (g : G4Words)
    → has_value g.first_other_word ≡ true
    → has_value (g4_step w g).first_other_word ≡ true
unfolding g4_step note_other
g4_step-keeps_other w g h = ground (arith, h)

note_other-other : (w : Word) (g : G4Words) → has_value (note_other w g).first_other_word ≡ true
unfolding note_other
note_other-other w g = ground arith

pub g4_step-sets_g4 :
    (w : Word) (g : G4Words)
    → is_motion_word w ≡ some (pos 4)
    → has_value (g4_step w g).g4_word ≡ true
unfolding g4_step is_g4_code note_other
g4_step-sets_g4 w g e = ground (arith, e)

pub g4_step-sets_other :
    (w : Word) (g : G4Words) (c : ℤ)
    → is_motion_word w ≡ some c
    → (c == pos 4) ≡ false
    → has_value (g4_step w g).first_other_word ≡ true
unfolding g4_step is_g4_code
g4_step-sets_other w g c e n =
    let h = motion-head w c e in rw (e, n, h.0, h.1) (note_other-other w g)

-- Both a G4 and another word.
abbrev pub is_mixed : G4Words → Bool
is_mixed g = has_value g.g4_word && has_value g.first_other_word

pub g4_scan-is_mixed :
    (items : List LineItem) (g : G4Words) → is_mixed g ≡ true → is_mixed (g4_scan items g) ≡ true
unfolding g4_scan
g4_scan-is_mixed [] g h = h
g4_scan-is_mixed (comment c ∷ items) g h = g4_scan-is_mixed items g h
g4_scan-is_mixed (word w ∷ items) g h =
    g4_scan-is_mixed items (g4_step w g)
      (ground (arith, h, g4_step-keeps_g4 w g, g4_step-keeps_other w g))

pub g4_block-is_mixed :
    (num : FloatText) (items : List LineItem)
    → g4_block num items ≡ none
    → is_mixed (g4_scan items no_words) ≡ false
unfolding g4_block g4_judge
g4_block-is_mixed num items e = ground (arith, e)
