-- ===== src/Semantic/Scanning.antt =====
-- The scan of the message lowering for the motion of a line: what it finds where it meets no
-- conflict.
use mathlib.Core.Path.{subst}
use experimental_gcode_parse.Prelude.{
  All, IsIn, ◌⊎◌, ℤ, true, false, not, ◌&&◌, List, [], ◌∷◌, Option, none, some, ◌≡◌, refl, arith,
  ◌==◌, string_eq, int_eq, Bool-cases, inl, inr, ==_eq, ◌∙◌, sym,
}
use experimental_gcode_parse.Ast.{Word, LineItem, word, comment}
use experimental_gcode_parse.Ail.{WorkingPlane}
use experimental_gcode_parse.Messages.Words.{
  motion_code, plane_from_word, MotionScan, scan_motion, override_plane,
}
use experimental_gcode_parse.Semantic.MotionWords.{in_range, word-code}

-- The scan of the lowering on a word with the motion code `c`, behind the plane.
pub scan_motion-step :
    (w : Word) (items : List LineItem) (m : MotionScan) (c : ℤ)
    → motion_code w ≡ c
    → in_range c ≡ true
    → (m.has_motion && not (c == m.found_motion)) ≡ false
    → scan_motion (word w ∷ items) m
      ≡ scan_motion items
          (record (override_plane (plane_from_word w) m) { has_motion = true; found_motion = c })
unfolding scan_motion override_plane in_range
scan_motion-step w items m c e r n = ground (arith, e, r, n)

pub scan_motion-skip :
    (w : Word) (items : List LineItem) (m : MotionScan)
    → in_range (motion_code w) ≡ false
    → scan_motion (word w ∷ items) m ≡ scan_motion items (override_plane (plane_from_word w) m)
unfolding scan_motion in_range
scan_motion-skip w items m r = ground (arith, r)

-- On a second motion that differs, the scan ends with the mark -1.
scan_motion-conflict :
    (w : Word) (items : List LineItem) (m : MotionScan) (c : ℤ)
    → motion_code w ≡ c
    → in_range c ≡ true
    → (m.has_motion && not (c == m.found_motion)) ≡ true
    → in_range (scan_motion (word w ∷ items) m).found_motion ≡ true
    → ⊥
unfolding scan_motion override_plane in_range
scan_motion-conflict w items m c e r n h = ground (arith, e, r, n, h)

pub override-same :
    (o : Option WorkingPlane) (m : MotionScan)
    → ((override_plane o m).has_motion ≡ m.has_motion)
      × ((override_plane o m).found_motion ≡ m.found_motion)
unfolding override_plane
override-same none m = (refl, refl)
override-same (some p) m = (refl, refl)

-- A motion word has the motion that the scan found.
abbrev pub IsFound : MotionScan → LineItem → Type 0
IsFound t (comment c) = Unit
IsFound t (word w) =
    in_range (motion_code w) ≡ true → (t.has_motion ≡ true) × (motion_code w ≡ t.found_motion)

-- What the scan found from a state on, where it met no conflict: the motion of every motion word,
-- and no motion but that of a word or of the state.
pub record IsScanOf (items : List LineItem) (m t : MotionScan) : Type 0 where
  pub all_found : All (IsFound t) items
  pub held : m.has_motion ≡ true → (t.has_motion ≡ true) × (m.found_motion ≡ t.found_motion)
  pub from_word :
      t.has_motion ≡ true
      → (m.has_motion ≡ true)
        ⊎ ((w : Word) × IsIn (word w) items × (motion_code w ≡ t.found_motion))

IsScanOf-word :
    (w : Word) (items : List LineItem) (m t : MotionScan) (c : ℤ)
    → motion_code w ≡ c
    → (m.has_motion && not (c == m.found_motion)) ≡ false
    → IsScanOf items
        (record (override_plane (plane_from_word w) m) { has_motion = true; found_motion = c })
        t
    → IsScanOf (word w ∷ items) m t
IsScanOf-word w items m t c e free h =
    let k = h.held refl in
    record {
      all_found = ((λ r. (k.0, e ∙ k.1)), h.all_found);
      held = λ y. (k.0, sym (==_eq c m.found_motion (ground (arith, free, y))) ∙ k.1);
      from_word = λ y. inr (w, inl refl, e ∙ k.1);
    }

IsScanOf-other :
    (i : LineItem) (items : List LineItem) (m n t : MotionScan)
    → n.has_motion ≡ m.has_motion
    → n.found_motion ≡ m.found_motion
    → IsFound t i
    → IsScanOf items n t
    → IsScanOf (i ∷ items) m t
IsScanOf-other i items m n t e f found h = record {
  all_found = (found, h.all_found);
  held = λ y. let k = h.held (e ∙ y) in (k.0, sym f ∙ k.1);
  from_word =
      λ y. elim (h.from_word y) [ inl q ↦ inl (sym e ∙ q) | inr (w, q, r) ↦ inr (w, inr q, r) ];
}

-- A scan that ends within the range met no conflict.
pub scan_motion-IsScanOf :
    (items : List LineItem) (m : MotionScan)
    → in_range (scan_motion items m).found_motion ≡ true
    → IsScanOf items m (scan_motion items m)
unfolding scan_motion
scan_motion-IsScanOf [] m r = record {
  all_found = tt;
  held = λ y. (y, refl);
  from_word = λ y. inl y;
}
scan_motion-IsScanOf (comment c ∷ items) m r =
    IsScanOf-other (comment c) items m m _ refl refl tt (scan_motion-IsScanOf items m r)
scan_motion-IsScanOf (word w ∷ items) m r = elim (word-code w) [
  | inl q ↦
      let n = override_plane (plane_from_word w) m in
      let s = override-same (plane_from_word w) m in
      let e = scan_motion-skip w items m q.1 in
      subst (IsScanOf (word w ∷ items) m) (sym e) (
        IsScanOf-other (word w) items m n _ s.0 s.1 (λ y. absurd (ground (arith, q.1, y)))
          (scan_motion-IsScanOf items n (subst (λ t. in_range t.found_motion ≡ true) e r)))
  | inr q ↦ elim (Bool-cases (m.has_motion && not (q.0 == m.found_motion))) [
    | inl p ↦ absurd (scan_motion-conflict w items m q.0 q.2 q.3 p r)
    | inr p ↦
        let e = scan_motion-step w items m q.0 q.2 q.3 p in
        subst (IsScanOf (word w ∷ items) m) (sym e) (
          IsScanOf-word w items m _ q.0 q.2 p
            (scan_motion-IsScanOf items _ (subst (λ t. in_range t.found_motion ≡ true) e r)))
  ]
]
