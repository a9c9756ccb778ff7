-- ===== src/Executor/Invariant/Jumps.antt =====
-- Jumps, branches and assignments of src/ail.cpp keep the executor's invariant.
use experimental_gcode_parse.Prelude.{
  ℕ, String, ◌+++◌, ◌≡◌, refl, ◌<◌, List, [], ◌∷◌, length, All, Option, none, some, arith,
  Option-cases, inl, inr,
}
use experimental_gcode_parse.Ail.{Goto}
use experimental_gcode_parse.Executor.State.{AilExecutor, add_warning}
use experimental_gcode_parse.Executor.Goto.{
  pick_forward, pick_backward, warn_multiple, warn_forward, warn_backward, pick_any, pick_by_opcode,
  goto_candidates, target_line_number, resolve_goto_target,
}
use experimental_gcode_parse.Executor.Goto.Nearest.{
  OneOf, IsNearestForward, IsNearestBackward, pick_forward-IsNearestForward,
  pick_backward-IsNearestBackward,
}
use experimental_gcode_parse.Executor.Branch.{follow}
use experimental_gcode_parse.Lowering.{SourceInfo}
use experimental_gcode_parse.Executor.Invariant.{IsValid, IsRunning}
use experimental_gcode_parse.Executor.Invariant.Basic.{
  next_pc-IsValid, jump_to-IsValid, add_fault-IsValid, add_warning-IsRunning,
}

abbrev pub IsWithin : ℕ → Option ℕ → Type 0
IsWithin n none = Unit
IsWithin n (some t) = t < n

-- A resolved target lies in the program of the executor that the resolution leaves.
abbrev pub IsResolved : Option ℕ × AilExecutor → Type 0
IsResolved (target, e) = IsWithin (length e.instructions) target × IsRunning e

OneOf-All : (n t : ℕ) (cs : List ℕ) → OneOf t cs → All (λ p. p < n) cs → t < n
OneOf-All n t (c ∷ cs) (inl e) h = omega arith
OneOf-All n t (c ∷ cs) (inr m) h = OneOf-All n t cs m h.1
OneOf-All n t [] m h = elim m [ ]

forward-IsWithin :
    (n current : ℕ) (cs : List ℕ) (r : Option ℕ)
    → IsNearestForward current cs r
    → All (λ p. p < n) cs
    → IsWithin n r
forward-IsWithin n current cs none h a = tt
forward-IsWithin n current cs (some t) h a = OneOf-All n t cs h.0 a

backward-IsWithin :
    (n current : ℕ) (cs : List ℕ) (r : Option ℕ)
    → IsNearestBackward current cs r
    → All (λ p. p < n) cs
    → IsWithin n r
backward-IsWithin n current cs none h a = tt
backward-IsWithin n current cs (some t) h a = OneOf-All n t cs h.0 a

warn_multiple-IsResolved :
    (direction : String) (inst : Goto) (count : ℕ) {e : AilExecutor} (target : Option ℕ)
    → IsRunning e
    → IsWithin (length e.instructions) target
    → IsResolved (target, warn_multiple direction inst count e)
unfolding warn_multiple add_warning
warn_multiple-IsResolved direction inst count {e} target v h =
    (ground arith, ground (arith, add_warning-IsRunning v inst.source))

module _ (current : ℕ) (cs : List ℕ) (inst : Goto) {e : AilExecutor} (v : IsRunning e)
    (a : All (λ p. p < length e.instructions) cs) where
  forward-IsResolved : IsResolved (pick_forward current cs, warn_forward current cs inst e)
  unfolding warn_forward
  forward-IsResolved =
      warn_multiple-IsResolved "forward" inst _ _ v
        (forward-IsWithin _ current cs _ (pick_forward-IsNearestForward current cs) a)

  backward-IsResolved : IsResolved (pick_backward current cs, warn_backward current cs inst e)
  unfolding warn_backward
  backward-IsResolved =
      warn_multiple-IsResolved "backward" inst _ _ v
        (backward-IsWithin _ current cs _ (pick_backward-IsNearestBackward current cs) a)

  pick_any-IsResolved : IsResolved (pick_any current cs inst e)
  unfolding pick_any
  pick_any-IsResolved = elim (Option-cases (pick_forward current cs)) [
    | inl q ↦ rw (q, pick_any) backward-IsResolved
    | inr (t, q) ↦ rw (q, pick_any) (rw q at forward-IsResolved)
  ]

  pick_by_opcode-IsResolved : IsResolved (pick_by_opcode current cs inst e)
  unfolding pick_by_opcode
  pick_by_opcode-IsResolved =
      ground (arith, forward-IsResolved, backward-IsResolved, pick_any-IsResolved)

abbrev AllWithin : ℕ → Option (List ℕ) → Type 0
AllWithin n none = Unit
AllWithin n (some cs) = All (λ p. p < n) cs

goto_candidates-AllWithin :
    (inst : Goto) {e : AilExecutor}
    → IsRunning e
    → AllWithin (length e.instructions) (goto_candidates e inst)
unfolding goto_candidates
goto_candidates-AllWithin inst {e} v = elim (Option-cases (target_line_number inst)) [
  | inl q ↦ rw (q, goto_candidates) (ground (arith, v.indexed.label_at inst.target))
  | inr (k, q) ↦
      rw (q, goto_candidates)
        (ground (arith, v.indexed.label_at inst.target, v.indexed.number_at k))
]

IsResolved-from :
    (current : ℕ) (inst : Goto) {e : AilExecutor} (o : Option (List ℕ))
    → goto_candidates e inst ≡ o
    → IsRunning e
    → AllWithin (length e.instructions) o
    → IsResolved (resolve_goto_target current inst e)
unfolding resolve_goto_target
IsResolved-from current inst none q v a = rw (q, resolve_goto_target) (tt, v)
IsResolved-from current inst (some []) q v a = rw (q, resolve_goto_target) (tt, v)
IsResolved-from current inst (some (c ∷ cs)) q v a =
    rw (q, resolve_goto_target) (pick_by_opcode-IsResolved current (c ∷ cs) inst v a)

pub resolve_goto_target-IsResolved :
    (current : ℕ) (inst : Goto) {e : AilExecutor}
    → IsRunning e
    → IsResolved (resolve_goto_target current inst e)
resolve_goto_target-IsResolved current inst v =
    IsResolved-from current inst _ refl v (goto_candidates-AllWithin inst v)

pub follow-IsValid :
    (source : SourceInfo) (message : String) (goto : Goto) (r : Option ℕ × AilExecutor)
    → IsResolved r
    → IsValid (follow source message goto r)
unfolding follow
follow-IsValid source message goto (some target, e) (h, v) = jump_to-IsValid v target h
follow-IsValid source message goto (none, e) (h, v) =
    ground (arith, next_pc-IsValid v, add_fault-IsValid v source (message +++ goto.target))
