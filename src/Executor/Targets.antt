-- ===== src/Executor/Targets.antt =====
-- src/ail.cpp: resolveGotoTarget against the text of the program.
use experimental_gcode_parse.Prelude.{
  ℕ, ℤ, ◌≡◌, refl, sym, ◌⊎◌, inl, inr, List, [], ◌∷◌, Option, none, some, string_eq, int_eq,
  lookup_all,
}
use experimental_gcode_parse.Ail.{AilInstruction, Goto}
use experimental_gcode_parse.Executor.State.{AilExecutor, AilExecutorOptions}
use experimental_gcode_parse.Executor.Goto.{
  pick_forward, pick_any, pick_by_opcode, goto_candidates, target_line_number, resolve_goto_target,
}
use experimental_gcode_parse.Executor.Goto.Nearest.{
  IsNearestForward, IsNearestBackward, pick_forward-IsNearestForward,
  pick_backward-IsNearestBackward,
}
use experimental_gcode_parse.Executor.Step.{make_executor}
use experimental_gcode_parse.Executor.Step.Labels.{
  make_executor-positions, positions, is_label_of, in_block,
}

-- The nearest candidate behind the current instruction, and the nearest before it if there is none.
abbrev pub IsNearestAny : ℕ → List ℕ → Option ℕ → Type 0
IsNearestAny current cs r =
    ((t : ℕ) × (r ≡ some t) × IsNearestForward current cs (some t))
    ⊎ (IsNearestForward current cs none × IsNearestBackward current cs r)

-- What the opcode of a jump asks for among the candidates.
pub record IsTargetOf (current : ℕ) (inst : Goto) (cs : List ℕ) (r : Option ℕ) : Type 0 where
  pub forward : inst.opcode ≡ "GOTOF" → IsNearestForward current cs r
  pub backward : inst.opcode ≡ "GOTOB" → IsNearestBackward current cs r
  pub any : inst.opcode ≡ "GOTO" → IsNearestAny current cs r
  pub any_or_on : inst.opcode ≡ "GOTOC" → IsNearestAny current cs r

pick_any-IsNearestAny :
    (current : ℕ) (cs : List ℕ) (inst : Goto) (e : AilExecutor)
    → IsNearestAny current cs (pick_any current cs inst e).0
unfolding pick_any
pick_any-IsNearestAny current cs inst e =
    from (pick_forward current cs) refl (pick_forward-IsNearestForward current cs)
  where
    from :
        (o : Option ℕ)
        → pick_forward current cs ≡ o
        → IsNearestForward current cs o
        → IsNearestAny current cs (pick_any current cs inst e).0
    from none q n = rw (pick_any, q) (inr (n, pick_backward-IsNearestBackward current cs))
    from (some t) q n = rw (pick_any, q) (inl (t, refl, n))

pick_by_opcode-IsTargetOf :
    (current : ℕ) (cs : List ℕ) (inst : Goto) (e : AilExecutor)
    → IsTargetOf current inst cs (pick_by_opcode current cs inst e).0
unfolding pick_by_opcode
pick_by_opcode-IsTargetOf current cs inst e = record {
  forward = λ q. simp (pick_by_opcode, q) (pick_forward-IsNearestForward current cs);
  backward = λ q. simp (pick_by_opcode, q) (pick_backward-IsNearestBackward current cs);
  any = λ q. simp (pick_by_opcode, q) (pick_any-IsNearestAny current cs inst e);
  any_or_on = λ q. simp (pick_by_opcode, q) (pick_any-IsNearestAny current cs inst e);
}

resolve-IsTargetOf :
    (current : ℕ) (inst : Goto) (e : AilExecutor) (cs : List ℕ)
    → goto_candidates e inst ≡ some cs
    → IsTargetOf current inst cs (resolve_goto_target current inst e).0
unfolding resolve_goto_target
resolve-IsTargetOf current inst e [] q =
    rw (resolve_goto_target, q)
      (record {
        forward = λ h. tt;
        backward = λ h. tt;
        any = λ h. inr (tt, tt);
        any_or_on = λ h. inr (tt, tt);
      })
resolve-IsTargetOf current inst e (c ∷ cs) q =
    rw (resolve_goto_target, q) (pick_by_opcode-IsTargetOf current (c ∷ cs) inst e)

number_candidates :
    (inst : Goto) (e : AilExecutor)
    → (inst.target_kind ≡ "line_number") ⊎ (inst.target_kind ≡ "number")
    → goto_candidates e inst ≡ elim (target_line_number inst) [
      | none ↦ none
      | some n ↦ some (lookup_all n e.line_number_positions)
    ]
unfolding goto_candidates
number_candidates inst e (inl k) = simp (goto_candidates, k)
number_candidates inst e (inr k) = simp (goto_candidates, k)

number_read :
    (inst : Goto) (e : AilExecutor) (n : ℤ)
    → (inst.target_kind ≡ "line_number") ⊎ (inst.target_kind ≡ "number")
    → target_line_number inst ≡ some n
    → goto_candidates e inst ≡ some (lookup_all n e.line_number_positions)
number_read inst e n k q = rw (number_candidates inst e k, q) refl

label_read :
    (inst : Goto) (e : AilExecutor)
    → inst.target_kind ≡ "label"
    → goto_candidates e inst ≡ some (lookup_all inst.target e.label_positions)
unfolding goto_candidates
label_read inst e k = simp (goto_candidates, k)

-- A jump to a label resolves to the nearest instruction of the program with that label, in the
-- direction that the opcode asks for, and a jump to a number whose text reads as `n` to the nearest
-- instruction of a block with that number; where there is none in that direction it does not
-- resolve.
pub resolve_goto_target-IsTargetOf :
    (current : ℕ) (inst : Goto) (insts : List AilInstruction) (options : AilExecutorOptions)
    → (inst.target_kind ≡ "label"
        → IsTargetOf current inst
            (positions (is_label_of inst.target) 0 insts)
            (resolve_goto_target current inst (make_executor insts options)).0)
      × ((n : ℤ)
          → (inst.target_kind ≡ "line_number") ⊎ (inst.target_kind ≡ "number")
          → target_line_number inst ≡ some n
          → IsTargetOf current inst
              (positions (in_block n) 0 insts)
              (resolve_goto_target current inst (make_executor insts options)).0)
resolve_goto_target-IsTargetOf current inst insts options = (
  λ k.
      rw (sym ((make_executor-positions insts options).0 inst.target))
        (resolve-IsTargetOf current inst _ _ (label_read inst _ k)),
  λ n k q.
      rw (sym ((make_executor-positions insts options).1 n))
        (resolve-IsTargetOf current inst _ _ (number_read inst _ n k q)),
)
