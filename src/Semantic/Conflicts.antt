-- ===== src/Semantic/Conflicts.antt =====
-- A line that the rules on motion accept has no two motions, so the lowering never drops one.
use mathlib.Core.Path.{subst}
use experimental_gcode_parse.Prelude.{
  All, IsIn, ℤ, pos, true, false, not, ◌&&◌, List, [], ◌∷◌, Option, none, some, ◌≡◌, refl, arith,
  if◌then◌else◌, ◌==◌, string_eq, int_eq, leb_ℤ, Bool-cases, inl, inr, ==_eq, ◌∙◌, sym,
}
use experimental_gcode_parse.Floats.{FloatText}
use experimental_gcode_parse.Ast.{Word, LineItem, word, comment}
use experimental_gcode_parse.Ail.{has_value}
use experimental_gcode_parse.Messages.Words.{
  motion_code, plane_from_word, MotionScan, no_motion, scan_motion, override_plane,
}
use experimental_gcode_parse.Semantic.Words.{is_motion_word}
use experimental_gcode_parse.Semantic.Motion.{
  motion_exclusivity, exclusive_word, G4Words, g4_step, g4_scan, g4_block, no_words,
}
use experimental_gcode_parse.Semantic.MotionWords.{
  in_range, word-code, g4_step-keeps_g4, g4_step-keeps_other, g4_step-sets_g4, g4_step-sets_other,
  is_mixed, g4_scan-is_mixed, g4_block-is_mixed,
}
use experimental_gcode_parse.Semantic.Scanning.{
  scan_motion-step, scan_motion-skip, override-same, IsFound, scan_motion-IsScanOf,
}

-- What the three loops know of the motion found so far.
record Tracks (m : MotionScan) (before : Option ℤ) (g : G4Words) : Type 0 where
  pub found_in_range : in_range m.found_motion ≡ true
  pub dwell : m.has_motion ≡ true → (m.found_motion == pos 4) ≡ true → has_value g.g4_word ≡ true
  pub move :
      m.has_motion ≡ true
      → (m.found_motion == pos 4) ≡ false
      → (before ≡ some m.found_motion) × (has_value g.first_other_word ≡ true)

exclusive_conflict :
    (w : Word) (items : List LineItem) (c k : ℤ)
    → is_motion_word w ≡ some c
    → (c == pos 4) ≡ false
    → (c == k) ≡ false
    → motion_exclusivity (word w ∷ items) (some k) ≡ none
    → ⊥
unfolding motion_exclusivity exclusive_word
exclusive_conflict w items c k e d n x = ground (arith, e, d, n, x)

-- Two different motions: one of the rules reports the line.
no_conflict :
    (w : Word) (items : List LineItem) (m : MotionScan) (before : Option ℤ) (g : G4Words) (c : ℤ)
    → Tracks m before g
    → is_motion_word w ≡ some c
    → motion_exclusivity (word w ∷ items) before ≡ none
    → is_mixed (g4_scan (word w ∷ items) g) ≡ false
    → (m.has_motion && not (c == m.found_motion)) ≡ false
no_conflict w items m before g c t e x y =
    elim (Bool-cases (m.has_motion && not (c == m.found_motion))) [
      | inr q ↦ q
      | inl q ↦ absurd (conflict q)
    ]
  where
    mixed_then : is_mixed (g4_step w g) ≡ true → ⊥
    mixed_then h =
        unfold g4_scan in let k = g4_scan-is_mixed items (g4_step w g) h in ground (arith, k, y)

    conflict : (m.has_motion && not (c == m.found_motion)) ≡ true → ⊥
    conflict q =
        let has : m.has_motion ≡ true = ground (arith, q) in
        let differ : (c == m.found_motion) ≡ false = ground (arith, q) in
        elim (Bool-cases (m.found_motion == pos 4)) [
          | inl f ↦
              let c4 : (c == pos 4) ≡ false =
                let same = ==_eq m.found_motion (pos 4) f in rw (← same) differ in
              mixed_then (
                ground (arith, g4_step-keeps_g4 w g (t.dwell has f), g4_step-sets_other w g c e c4))
          | inr f ↦ elim (Bool-cases (c == pos 4)) [
            | inl d ↦
                let same : c ≡ pos 4 = ==_eq c (pos 4) d in
                let e4 : is_motion_word w ≡ some (pos 4) = rw (← same) e in
                mixed_then
                  (ground (arith, g4_step-keeps_other w g (t.move has f).1, g4_step-sets_g4 w g e4))
            | inr d ↦ refused has f d
          ]
        ]
      where
        refused : m.has_motion ≡ true → (m.found_motion == pos 4) ≡ false → (c == pos 4) ≡ false → ⊥
        refused has f d =
            exclusive_conflict w items c m.found_motion e d (ground (arith, q))
              (subst (λ o. motion_exclusivity (word w ∷ items) o ≡ none) (t.move has f).0 x)

Tracks-other :
    (w : Word) (m : MotionScan) (before : Option ℤ) (g : G4Words)
    → Tracks m before g
    → Tracks (override_plane (plane_from_word w) m) before (g4_step w g)
Tracks-other w m before g t =
    let s = override-same (plane_from_word w) m in
    record {
      found_in_range = rw (s.1) t.found_in_range;
      dwell = λ h f. g4_step-keeps_g4 w g (t.dwell (sym s.0 ∙ h) (rw (← s.1) f));
      move = λ h f.
          let k = t.move (sym s.0 ∙ h) (rw (← s.1) f) in
          (rw (s.1) k.0, g4_step-keeps_other w g k.1);
    }

-- The motion code that the exclusivity rule has seen behind a word with the code `c`.
seen_after : Option ℤ → ℤ → Option ℤ
seen_after before c = if c == pos 4 then before else some c

exclusivity-step :
    (w : Word) (items : List LineItem) (before : Option ℤ) (c : ℤ)
    → is_motion_word w ≡ some c
    → motion_exclusivity (word w ∷ items) before ≡ none
    → motion_exclusivity items (seen_after before c) ≡ none
unfolding motion_exclusivity exclusive_word seen_after
exclusivity-step w items none c e x = ground (arith, e, x)
exclusivity-step w items (some k) c e x = ground (arith, e, x)

Tracks-motion :
    (w : Word) (m : MotionScan) (before : Option ℤ) (g : G4Words) (c : ℤ)
    → is_motion_word w ≡ some c
    → in_range c ≡ true
    → Tracks (record m { has_motion = true; found_motion = c }) (seen_after before c) (g4_step w g)
unfolding seen_after
Tracks-motion w m before g c e r = record {
  found_in_range = r;
  dwell = λ h f. g4_step-sets_g4 w g (subst (λ k. is_motion_word w ≡ some k) (==_eq c (pos 4) f) e);
  move = λ h f. (rw (f) refl, g4_step-sets_other w g c e f);
}

scan_in_range :
    (items : List LineItem) (m : MotionScan) (before : Option ℤ) (g : G4Words)
    → Tracks m before g
    → motion_exclusivity items before ≡ none
    → is_mixed (g4_scan items g) ≡ false
    → in_range (scan_motion items m).found_motion ≡ true
unfolding scan_motion motion_exclusivity g4_scan
scan_in_range [] m before g t x y = t.found_in_range
scan_in_range (comment c ∷ items) m before g t x y = scan_in_range items m before g t x y
scan_in_range (word w ∷ items) m before g t x y = elim (word-code w) [
  | inl q ↦ rw (scan_motion-skip w items m q.1) (
      scan_in_range items (override_plane (plane_from_word w) m) before (g4_step w g)
        (Tracks-other w m before g t) (ground (arith, q.0, x)) y)
  | inr q ↦
      let free = no_conflict w items m before g q.0 t q.1 x y in
      let next = override_plane (plane_from_word w) m in
      rw (scan_motion-step w items m q.0 q.2 q.3 free) (
        scan_in_range items (record next { has_motion = true; found_motion = q.0 })
          (seen_after before q.0) (g4_step w g) (Tracks-motion w next before g q.0 q.1 q.3)
          (exclusivity-step w items before q.0 q.1 x) y)
]

-- What the scan of a line says: whether the line has a motion word, and the one motion that all its
-- motion words have, which is one of G0 to G4.
pub record HasOneMotion (items : List LineItem) (t : MotionScan) : Type 0 where
  pub all_found : All (IsFound t) items
  pub from_word :
      t.has_motion ≡ true → (w : Word) × IsIn (word w) items × (motion_code w ≡ t.found_motion)
  pub above : leb_ℤ (pos 0) t.found_motion ≡ true
  pub below : leb_ℤ t.found_motion (pos 4) ≡ true

-- A line that the rule on G4 blocks and the rule on motion commands accept has at most one motion,
-- and the scan of the message lowering finds it: the scan reports a motion exactly where the line has
-- a motion word, and all its motion words have the code that the scan ends with. The code is one of 0
-- to 4 and never the mark for conflicting motions, on which the line would be left out without a
-- diagnostic.
pub accepted-HasOneMotion :
    (num : FloatText) (items : List LineItem)
    → g4_block num items ≡ none
    → motion_exclusivity items none ≡ none
    → HasOneMotion items (scan_motion items no_motion)
unfolding in_range
accepted-HasOneMotion num items h x =
    let t : Tracks no_motion none no_words = record {
      found_in_range = refl;
      dwell = λ h f. absurd (cc);
      move = λ h f. absurd (cc);
    } in
    let r = scan_in_range items no_motion none no_words t x (g4_block-is_mixed num items h) in
    let s = scan_motion-IsScanOf items no_motion r in
    record {
      all_found = s.all_found;
      from_word = λ y. elim (s.from_word y) [ inl q ↦ absurd (cc) | inr q ↦ q ];
      above = ground (arith, r);
      below = ground (arith, r);
    }
