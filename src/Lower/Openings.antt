-- ===== src/Lower/Openings.antt =====
-- What the loop over the lines keeps of the open blocks, and the lines that open a block or add to it.
use experimental_gcode_parse.Prelude.{
  ℕ, suc, String, List, [], ◌∷◌, ◌++◌, Option, none, some, ◌≡◌, refl, ◌⊎◌, inl, inr, All,
  All-append, All-imp, get_elem?-append, get_elem?-append_length, IsIn, length, nat_eq,
}
use experimental_gcode_parse.Ast.{ConditionStatement, Line}
use experimental_gcode_parse.Lowering.{SourceInfo}
use experimental_gcode_parse.Ail.{AilInstruction, label, branch_if, source_of, Goto, BranchIf}
use experimental_gcode_parse.Lower.Blocks.{
  LowerState, lower_if_start, retarget, internal_label, if_branch,
}
use experimental_gcode_parse.Lower.Frame.{target_of, jump_targets, written_targets, Adds, IsOf}
use experimental_gcode_parse.Lower.Open.{
  IsBranch, IsKnown, AreKnown, branches-append, IsKnown-imp, targets-imp, IsIn-label_names_left,
  IsIn-label_names_right,
}

-- What the loop keeps. `F` is a property of the line numbers of instructions.
pub record IsOpen (F : ℕ → Type 0) (written : List String) (s : LowerState) : Type 0 where
  pub branches : All (IsBranch s.instructions) s.if_stack
  pub targets : AreKnown s.instructions s.if_stack written
  pub lines : All (λ i. F (source_of i).line) s.instructions

All-IsIn : {P : String → Type 0} (ts : List String) → ((t : String) → IsIn t ts → P t) → All P ts
All-IsIn [] f = tt
All-IsIn (t ∷ ts) f = (f t (inl refl), All-IsIn ts (λ u h. f u (inr h)))

-- The new target of a branch is known, and the first one stays known.
pub retarget-known :
    (P : String → Type 0) {target : String}
    → P target
    → (b : BranchIf) → All P (jump_targets (branch_if b))
    → All P (jump_targets (branch_if (retarget target b)))
retarget-known P {target} k b h = (h.0, known b.else_branch)
  where
    known :
        (g : Option Goto)
        → All P
            (target_of (elim g [ none ↦ none | some g' ↦ some (record g' { target = target }) ]))
    known none = tt
    known (some g) = (k, tt)

module _ {F : ℕ → Type 0} {written : List String} where
  -- The step of a line that opens and closes nothing.
  pub IsOpen-Adds :
      (line : Line) (s t : LowerState)
      → Adds (IsOf line) s t
      → ((u : String) → IsIn u (written_targets line) → IsIn u written)
      → F line.line_index
      → IsOpen F written s
      → IsOpen F written t
  IsOpen-Adds line s t a w f o = record {
    branches =
        rw (a.if_stack, a.instructions)
          (branches-append s.instructions a.added s.if_stack o.branches);
    targets = rw (a.if_stack, a.instructions) targets_after;
    lines = rw (a.instructions) (
        All-append (λ i. F (source_of i).line) s.instructions a.added o.lines
          (All-imp a.added (λ i h. rw (h.line_of) f) a.holds));
  }
    where
      written_known :
          (ts : List String)
          → (ts ≡ []) ⊎ (ts ≡ written_targets line)
          → All (IsKnown (s.instructions ++ a.added) s.if_stack written) ts
      written_known ts (inl e) = rw e tt
      written_known ts (inr e) = rw e (All-IsIn (written_targets line) (λ u h. inr (inr (w u h))))

      targets_after : AreKnown (s.instructions ++ a.added) s.if_stack written
      targets_after =
          All-append
            (λ i.
              All (λ t. IsKnown (s.instructions ++ a.added) s.if_stack written t) (jump_targets i))
            s.instructions a.added
            (targets-imp written s.instructions (s.instructions ++ a.added) s.if_stack s.if_stack
              (IsKnown-imp written s.instructions (s.instructions ++ a.added) s.if_stack s.if_stack
                (λ t h. IsIn-label_names_left t s.instructions a.added h) (λ t h. inr h))
              s.instructions o.targets)
            (All-imp a.added (λ i h. written_known (jump_targets i) h.targets) a.holds)

  -- A line `IF`.
  pub IsOpen-lower_if_start :
      (source : SourceInfo) (statement : ConditionStatement) (s : LowerState)
      → F source.line
      → IsOpen F written s
      → IsOpen F written (lower_if_start source statement s)
  unfolding lower_if_start source_of
  IsOpen-lower_if_start source statement s f o =
      let is = s.instructions in
      let t = lower_if_start source statement s in
      let b =
        if_branch source statement.condition
          (internal_label "IF_THEN" (suc s.generated_label_counter))
          (internal_label "IF_END" (suc (suc s.generated_label_counter))) in
      let then_label = label source (internal_label "IF_THEN" (suc s.generated_label_counter)) in
      let js = is ++ branch_if b ∷ [] in
      let P = λ (i : AilInstruction). F (source_of i).line in
      record {
        branches = (
          (
            b,
            get_elem?-append js (then_label ∷ []) (length is)
                (get_elem?-append_length is [] (branch_if b)),
          ),
          branches-append js (then_label ∷ []) s.if_stack
              (branches-append is (branch_if b ∷ []) s.if_stack o.branches),
        );
        targets =
            All-append (λ i. All (IsKnown t.instructions t.if_stack written) (jump_targets i)) js
              (then_label ∷ [])
              (All-append (λ i. All (IsKnown t.instructions t.if_stack written) (jump_targets i)) is
                (branch_if b ∷ [])
                (targets-imp written is t.instructions s.if_stack t.if_stack
                  (IsKnown-imp written is t.instructions s.if_stack t.if_stack
                    (λ u h.
                      IsIn-label_names_left u js (then_label ∷ [])
                        (IsIn-label_names_left u is (branch_if b ∷ []) h))
                    (λ u h. inr (inr h)))
                  is o.targets)
                (
                  (
                    inl (IsIn-label_names_right _ js (then_label ∷ []) (inl refl)),
                    (inr (inl (inl refl)), tt),
                  ),
                  tt,
                ))
              (tt, tt);
        lines =
            All-append P js (then_label ∷ []) (All-append P is (branch_if b ∷ []) o.lines (f, tt))
              (f, tt);
      }
