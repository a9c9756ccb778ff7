-- ===== src/Executor/Goto/Nearest.antt =====
-- src/ail.cpp: `pick_forward` and `pick_backward` against their meaning.
use experimental_gcode_parse.Prelude.{
  ℕ, ◌≤◌, ◌<◌, ◌≡◌, refl, ◌&&◌, ◌⊎◌, inl, inr, List, [], ◌∷◌, Option, none, some, ltb, All, arith,
  Bool-cases,
}
use experimental_gcode_parse.Executor.Goto.{
  pick_forward_from, pick_forward, pick_backward_from, pick_backward,
}

abbrev pub OneOf : ℕ → List ℕ → Type 0
OneOf t [] = ⊥
OneOf t (c ∷ cs) = (t ≡ c) ⊎ OneOf t cs

-- The least candidate above `current`, and `none` only where there is none.
abbrev pub IsNearestForward : ℕ → List ℕ → Option ℕ → Type 0
IsNearestForward current cs none = All (λ c. c ≤ current) cs
IsNearestForward current cs (some t) =
    OneOf t cs × (current < t) × All (λ c. current < c → t ≤ c) cs

-- The greatest candidate below `current`, and `none` only where there is none.
abbrev pub IsNearestBackward : ℕ → List ℕ → Option ℕ → Type 0
IsNearestBackward current cs none = All (λ c. current ≤ c) cs
IsNearestBackward current cs (some t) =
    OneOf t cs × (t < current) × All (λ c. c < current → c ≤ t) cs

forward_from_some :
    (current b : ℕ) (cs : List ℕ)
    → current < b
    → (t : ℕ) × (pick_forward_from current (some b) cs ≡ some t)
      × ((t ≡ b) ⊎ OneOf t cs)
      × (current < t)
      × (t ≤ b)
      × All (λ c. current < c → t ≤ c) cs
unfolding pick_forward_from
forward_from_some current b [] h = (b, refl, inl refl, h, omega arith, tt)
forward_from_some current b (c ∷ cs) h = elim (Bool-cases (ltb current c && ltb c b)) [
  | inl e ↦
      let (t, q, m, above, le, least) = forward_from_some current c cs (ground arith) in
      (t, rw e q, ground arith, above, ground arith, (λ k. le, least))
  | inr e ↦
      let (t, q, m, above, le, least) = forward_from_some current b cs h in
      (t, rw e q, ground arith, above, le, (λ k. ground arith, least))
]

forward-skip :
    (current c : ℕ) (cs : List ℕ) (r : Option ℕ)
    → c ≤ current
    → IsNearestForward current cs r
    → IsNearestForward current (c ∷ cs) r
forward-skip current c cs none h n = (h, n)
forward-skip current c cs (some t) h (m, above, least) =
    (inr m, above, (λ k. absurd (omega arith), least))

forward_from_none :
    (current : ℕ) (cs : List ℕ) → IsNearestForward current cs (pick_forward_from current none cs)
unfolding pick_forward_from
forward_from_none current [] = tt
forward_from_none current (c ∷ cs) = elim (Bool-cases (ltb current c)) [
  | inl e ↦
      let (t, q, m, above, le, least) = forward_from_some current c cs (ground arith) in
      rw (e, q) (m, above, (λ k. le, least))
  | inr e ↦ rw e (forward-skip current c cs _ (ground arith) (forward_from_none current cs))
]

-- `pick_forward` returns the nearest candidate behind the current instruction: one of the
-- candidates, above the current index, with no candidate between; it returns nothing only where
-- every candidate is at or before the current index.
pub pick_forward-IsNearestForward :
    (current : ℕ) (cs : List ℕ) → IsNearestForward current cs (pick_forward current cs)
unfolding pick_forward
pick_forward-IsNearestForward current cs = forward_from_none current cs

backward_from_some :
    (current b : ℕ) (cs : List ℕ)
    → b < current
    → (t : ℕ) × (pick_backward_from current (some b) cs ≡ some t)
      × ((t ≡ b) ⊎ OneOf t cs)
      × (t < current)
      × (b ≤ t)
      × All (λ c. c < current → c ≤ t) cs
unfolding pick_backward_from
backward_from_some current b [] h = (b, refl, inl refl, h, omega arith, tt)
backward_from_some current b (c ∷ cs) h = elim (Bool-cases (ltb c current && ltb b c)) [
  | inl e ↦
      let (t, q, m, below, le, greatest) = backward_from_some current c cs (ground arith) in
      (t, rw e q, ground arith, below, ground arith, (λ k. le, greatest))
  | inr e ↦
      let (t, q, m, below, le, greatest) = backward_from_some current b cs h in
      (t, rw e q, ground arith, below, le, (λ k. ground arith, greatest))
]

backward-skip :
    (current c : ℕ) (cs : List ℕ) (r : Option ℕ)
    → current ≤ c
    → IsNearestBackward current cs r
    → IsNearestBackward current (c ∷ cs) r
backward-skip current c cs none h n = (h, n)
backward-skip current c cs (some t) h (m, below, greatest) =
    (inr m, below, (λ k. absurd (omega arith), greatest))

backward_from_none :
    (current : ℕ) (cs : List ℕ) → IsNearestBackward current cs (pick_backward_from current none cs)
unfolding pick_backward_from
backward_from_none current [] = tt
backward_from_none current (c ∷ cs) = elim (Bool-cases (ltb c current)) [
  | inl e ↦
      let (t, q, m, below, le, greatest) = backward_from_some current c cs (ground arith) in
      rw (e, q) (m, below, (λ k. le, greatest))
  | inr e ↦ rw e (backward-skip current c cs _ (ground arith) (backward_from_none current cs))
]

-- `pick_backward` returns the nearest candidate before the current instruction: one of the
-- candidates, below the current index, with no candidate between; it returns nothing only where
-- every candidate is at or behind the current index.
pub pick_backward-IsNearestBackward :
    (current : ℕ) (cs : List ℕ) → IsNearestBackward current cs (pick_backward current cs)
unfolding pick_backward
pick_backward-IsNearestBackward current cs = backward_from_none current cs
