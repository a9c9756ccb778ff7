-- ===== src/Lower/Steps.antt =====
-- What the lines that close a block or a branch keep of the open blocks, and so every line.
use mathlib.Core.Path.{subst}
use experimental_gcode_parse.Prelude.{
  ℕ, suc, String, true, List, [], ◌∷◌, ◌++◌, Option, none, some, ◌≡◌, refl, inl, inr, All,
  All-append, All-imp, get_elem?-append, IsIn, sym, Bool-cases, nat_eq,
}
use experimental_gcode_parse.Floats.{FloatText}
use experimental_gcode_parse.Ast.{ConditionStatement, KeywordStatement, Line, Assignment}
use experimental_gcode_parse.Lowering.{SourceInfo, LowerOptions, error_at, source_from_line}
use experimental_gcode_parse.Ail.{AilInstruction, label, goto_, source_of}
use experimental_gcode_parse.Lower.Blocks.{
  LowerState, IfLowerContext, note_diagnostic, lower_else, lower_else_on, lower_else_of,
  lower_endif, lower_endif_on, finish_else, internal_label, goto_label,
}
use experimental_gcode_parse.Lower.Lines.{lower_statement, lower_closing_line}
use experimental_gcode_parse.Lower.Frame.{
  jump_targets, written_targets, Adds-imp, IsPlain-IsOf, Entry,
}
use experimental_gcode_parse.Lower.Additions.{lower_jump_line-Adds, lower_assignment-Adds}
use experimental_gcode_parse.Lower.Open.{
  label_names, IsBranch, IsKnown, AreKnown, branches-append, IsKnown-imp, targets-imp,
  IsIn-label_names_left, IsIn-label_names_right, Retargets, set_else_target-Retargets,
  Retargets-labels, Retargets-branch, Retargets-All,
}
use experimental_gcode_parse.Lower.Openings.{
  IsOpen, retarget-known, IsOpen-Adds, IsOpen-lower_if_start,
}

module _ {F : ℕ → Type 0} {written : List String} where
  -- What an ELSE makes of the state, given the program with the branch retargeted.
  IsOpen-else :
      (source : SourceInfo) (ctx : IfLowerContext) (outer : List IfLowerContext)
      (else_label : String) (js : List AilInstruction) (s : LowerState)
      → Retargets else_label (s.instructions ++ goto_ (goto_label source ctx.end_label) ∷ []) js
      → ctx ∷ outer ≡ s.if_stack
      → F source.line
      → IsOpen F written s
      → IsOpen F written (record s {
        instructions = js ++ label source else_label ∷ [];
        if_stack = record ctx { has_else = true } ∷ outer;
        generated_label_counter = suc s.generated_label_counter;
      })
  unfolding source_of
  IsOpen-else source ctx outer else_label js s r e f o =
      let is = s.instructions in
      let skip = goto_ (goto_label source ctx.end_label) in
      let stack = ctx ∷ outer in
      let after : List IfLowerContext = record ctx { has_else = true } ∷ outer in
      let end = label source else_label in
      let ks = js ++ end ∷ [] in
      let P = λ (i : AilInstruction). F (source_of i).line in
      let Known = λ (i : AilInstruction). All (IsKnown ks after written) (jump_targets i) in
      let grows : (u : String) → IsIn u (label_names is) → IsIn u (label_names ks) = λ u h.
        IsIn-label_names_left u js (end ∷ [])
          (rw (Retargets-labels r) (IsIn-label_names_left u is (skip ∷ []) h)) in
      let before : AreKnown is stack written =
        subst (λ st. AreKnown is st written) (sym e) o.targets in
      let moved : All Known is =
        targets-imp written is ks stack after
          (IsKnown-imp written is ks stack after grows (λ u h. inr h)) is before in
      let opened : All (IsBranch is) stack = subst (All (IsBranch is)) (sym e) o.branches in
      record {
        branches = branches-append js (end ∷ []) after (
            All-imp {Q = IsBranch js} after
              (λ c p.
                Retargets-branch c.branch_index p.0 r
                  (get_elem?-append is (skip ∷ []) c.branch_index p.1))
              opened);
        targets =
            All-append Known js (end ∷ [])
              (Retargets-All Known r
                (λ b h.
                  retarget-known (IsKnown ks after written)
                    (inl (IsIn-label_names_right _ js (end ∷ []) (inl refl))) b h)
                (All-append Known is (skip ∷ []) moved ((inr (inl (inl refl)), tt), tt)))
              (tt, tt);
        lines =
            All-append P js (end ∷ [])
              (Retargets-All P r (λ b h. h) (All-append P is (skip ∷ []) o.lines (f, tt))) (f, tt);
      }

  -- A line `ELSE`: it does not throw.
  IsOpen-lower_else :
      (source : SourceInfo) (statement : KeywordStatement) (stack : List IfLowerContext)
      (s : LowerState)
      → stack ≡ s.if_stack
      → F source.line
      → IsOpen F written s
      → (t : LowerState) × (lower_else_on source statement stack s ≡ some t) × IsOpen F written t
  unfolding lower_else_on lower_else_of finish_else
  IsOpen-lower_else source statement [] s e f o =
      (_, refl, record { branches = o.branches; targets = o.targets; lines = o.lines })
  IsOpen-lower_else source statement (ctx ∷ outer) s e f o = elim (Bool-cases ctx.has_else) [
    | inl q ↦ (
      note_diagnostic (error_at statement.keyword_location "duplicate ELSE for IF block") s,
      rw q refl,
      record { branches = o.branches; targets = o.targets; lines = o.lines },
    )
    | inr q ↦
        let opened : All (IsBranch s.instructions) (ctx ∷ outer) =
          subst (All (IsBranch s.instructions)) (sym e) o.branches in
        let else_label = internal_label "IF_ELSE" (suc s.generated_label_counter) in
        let skip = goto_ (goto_label source ctx.end_label) in
        let (js, g, r) =
          set_else_target-Retargets ctx.branch_index else_label (s.instructions ++ skip ∷ [])
            opened.0.0 (get_elem?-append s.instructions (skip ∷ []) ctx.branch_index opened.0.1) in
        (_, rw (q, g) refl, IsOpen-else source ctx outer else_label js s r e f o)
  ]

  -- A line `ENDIF`.
  IsOpen-lower_endif :
      (source : SourceInfo) (statement : KeywordStatement) (stack : List IfLowerContext)
      (s : LowerState)
      → stack ≡ s.if_stack
      → F source.line
      → IsOpen F written s
      → IsOpen F written (lower_endif_on source statement stack s)
  unfolding lower_endif_on source_of
  IsOpen-lower_endif source statement [] s e f o = record {
    branches = o.branches;
    targets = o.targets;
    lines = o.lines;
  }
  IsOpen-lower_endif source statement (ctx ∷ outer) s e f o =
      let is = s.instructions in
      let end = label source ctx.end_label in
      let js = is ++ end ∷ [] in
      let open_blocks : All (IsBranch is) (ctx ∷ outer) =
        subst (All (IsBranch is)) (sym e) o.branches in
      let known : AreKnown is (ctx ∷ outer) written =
        subst (λ st. AreKnown is st written) (sym e) o.targets in
      record {
        branches = branches-append is (end ∷ []) outer open_blocks.1;
        targets =
            All-append (λ i. All (IsKnown js outer written) (jump_targets i)) is (end ∷ [])
              (targets-imp written is js (ctx ∷ outer) outer
                (IsKnown-imp written is js (ctx ∷ outer) outer
                  (λ u h. IsIn-label_names_left u is (end ∷ []) h)
                  (λ u h. elim h [
                    | inl q ↦ inl (IsIn-label_names_right u is (end ∷ []) (inl q))
                    | inr k ↦ inr k
                  ]))
                is known)
              (tt, tt);
        lines = All-append (λ i. F (source_of i).line) is (end ∷ []) o.lines (f, tt);
      }

  -- A line that ends a block, or jumps, or holds words.
  IsOpen-lower_closing_line :
      (num : FloatText) (options : LowerOptions) (es : List (ℕ × AilInstruction)) (line : Line)
      (k endif : Option KeywordStatement) (s : LowerState)
      → All Entry es
      → ((u : String) → IsIn u (written_targets line) → IsIn u written)
      → F line.line_index
      → IsOpen F written s
      → (t : LowerState) × (lower_closing_line num options es line k endif s ≡ some t)
        × IsOpen F written t
  unfolding lower_closing_line lower_else lower_endif source_from_line
  IsOpen-lower_closing_line num options es line (some k) endif s n w f o =
      IsOpen-lower_else (source_from_line line options) k s.if_stack s refl f o
  IsOpen-lower_closing_line num options es line none (some k) s n w f o =
      (_, refl, IsOpen-lower_endif (source_from_line line options) k s.if_stack s refl f o)
  IsOpen-lower_closing_line num options es line none none s n w f o =
      (_, refl, IsOpen-Adds line s _ (lower_jump_line-Adds num options es line s n) w f o)

  -- Every line: the round does not throw, and keeps what the loop keeps.
  pub IsOpen-lower_statement :
      (num : FloatText) (options : LowerOptions) (es : List (ℕ × AilInstruction)) (line : Line)
      (a : Option Assignment) (b : Option ConditionStatement) (s : LowerState)
      → All Entry es
      → ((u : String) → IsIn u (written_targets line) → IsIn u written)
      → F line.line_index
      → IsOpen F written s
      → (t : LowerState) × (lower_statement num options es line a b s ≡ some t) × IsOpen F written t
  unfolding lower_statement source_from_line
  IsOpen-lower_statement num options es line (some a) b s n w f o = (
    _,
    refl,
    IsOpen-Adds line s _
        (Adds-imp (λ xs p. All-imp xs (IsPlain-IsOf line) p)
          (lower_assignment-Adds num options (source_from_line line options) a s))
        w f o,
  )
  IsOpen-lower_statement num options es line none (some b) s n w f o =
      (_, refl, IsOpen-lower_if_start (source_from_line line options) b s f o)
  IsOpen-lower_statement num options es line none none s n w f o =
      IsOpen-lower_closing_line num options es line line.else_statement line.endif_statement s n w f
        o
