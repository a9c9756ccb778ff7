-- ===== src/Lower/Returns.antt =====
-- The lowering of a program to AIL as a whole: it never throws, its jumps have targets, and its
-- instructions come from lines in front of the first rejected one.
use mathlib.Core.Path.{subst}
use experimental_gcode_parse.Prelude.{
  String, false, List, [], ◌++◌, some, ◌≡◌, refl, arith, ◌⊎◌, inl, inr, All, All-imp, IsIn, ◌∙◌,
  sym, nat_eq, string_eq,
}
use experimental_gcode_parse.Floats.{FloatText}
use experimental_gcode_parse.Ast
use experimental_gcode_parse.Ast.{Line, Diagnostic}
use experimental_gcode_parse.Lowering.{LowerOptions}
use experimental_gcode_parse.Ail.{AilInstruction, AilResult, source_of}
use experimental_gcode_parse.Messages.Batch.{lower_to_messages}
use experimental_gcode_parse.Lower.Blocks.{LowerState, IfLowerContext}
use experimental_gcode_parse.Lower.Program.{lower_to_ail, missing_endifs, lower_start, stop_line_of}
use experimental_gcode_parse.Lower.Lines.{index_messages}
use experimental_gcode_parse.Lower.Frame.{jump_targets, index_messages-Entry}
use experimental_gcode_parse.Lower.Open.{label_names, end_labels, IsKnown}
use experimental_gcode_parse.Lower.Openings.{IsOpen}
use experimental_gcode_parse.Lower.Loop.{
  all_written, IsLowered, reaches-IsBefore, IsOpen-lower_lines, missing_endifs-returns,
  has_missing_endif-append, closed,
}
use experimental_gcode_parse.Engine.Pending.{has_missing_endif}

-- What the lowering of a program does, in all: it returns, and its state is the loop's.
pub record Lowered (num : FloatText) (program : Ast.Program) (ds : List Diagnostic)
    (options : LowerOptions) (r : AilResult) : Type 0 where
  pub state : LowerState
  pub open_state :
      IsOpen (IsLowered program.lines options r.rejected_lines) (all_written program.lines) state
  pub instructions : r.instructions ≡ state.instructions
  pub rejected : r.rejected_lines ≡ (lower_to_messages num program ds options).rejected_lines
  pub missing : List Diagnostic
  pub missing_of : missing_endifs state.instructions state.if_stack ≡ some missing
  pub diagnostics : r.diagnostics ≡ state.diagnostics ++ missing

lower_to_ail-Lowered :
    (num : FloatText) (program : Ast.Program) (ds : List Diagnostic) (options : LowerOptions)
    → (r : AilResult) × (lower_to_ail num program ds options ≡ some r)
      × Lowered num program ds options r
unfolding lower_to_ail
lower_to_ail-Lowered num program ds options =
    let lowered = lower_to_messages num program ds options in
    let es = index_messages lowered.messages [] in
    let stop = stop_line_of lowered.rejected_lines in
    let (s, e, o) =
      IsOpen-lower_lines num options es (index_messages-Entry lowered.messages [] tt)
        {F = IsLowered program.lines options lowered.rejected_lines}
        {written = all_written program.lines} stop program.lines (lower_start lowered.diagnostics)
        (λ u h. h)
        (λ line h k q. (line, h, refl, k, reaches-IsBefore lowered.rejected_lines line q))
        (record { branches = tt; targets = tt; lines = tt }) in
    let (ms, m) = missing_endifs-returns s.instructions s.if_stack o.branches in
    (
      record {
        instructions = s.instructions;
        diagnostics = s.diagnostics ++ ms;
        rejected_lines = lowered.rejected_lines;
      },
      rw (e, m) refl,
      record {
        state = s;
        open_state = o;
        instructions = refl;
        rejected = refl;
        missing = ms;
        missing_of = m;
        diagnostics = refl;
      },
    )

lower_to_ail-state :
    (num : FloatText) (program : Ast.Program) (ds : List Diagnostic) (options : LowerOptions)
    (r : AilResult)
    → lower_to_ail num program ds options ≡ some r
    → Lowered num program ds options r
lower_to_ail-state num program ds options r e =
    let (q, e', l) = lower_to_ail-Lowered num program ds options in
    let f : some q ≡ some r = sym e' ∙ e in
    let g : q ≡ r = ground (arith, f) in subst (λ x. Lowered num program ds options x) g l

-- The rejected lines are those of the message lowering.
pub lower_to_ail-rejected :
    (num : FloatText) (program : Ast.Program) (ds : List Diagnostic) (options : LowerOptions)
    (r : AilResult)
    → lower_to_ail num program ds options ≡ some r
    → r.rejected_lines ≡ (lower_to_messages num program ds options).rejected_lines
lower_to_ail-rejected num program ds options r e =
    (lower_to_ail-state num program ds options r e).rejected

-- Lowering a program to AIL never throws: whatever the lines, an ELSE and the report of missing
-- ENDIFs find a branch instruction where they ask for one.
pub lower_to_ail-returns :
    (num : FloatText) (program : Ast.Program) (ds : List Diagnostic) (options : LowerOptions)
    → (r : AilResult) × (lower_to_ail num program ds options ≡ some r)
lower_to_ail-returns num program ds options =
    let (r, e, l) = lower_to_ail-Lowered num program ds options in (r, e)

-- Every instruction of a lowered program carries the number of a line of the program that is not
-- skipped by its block delete level, and that stands before the first rejected line where there is
-- one with a number.
pub lower_to_ail-IsLowered :
    (num : FloatText) (program : Ast.Program) (ds : List Diagnostic) (options : LowerOptions)
    (r : AilResult)
    → lower_to_ail num program ds options ≡ some r
    → All (λ i. IsLowered program.lines options r.rejected_lines (source_of i).line) r.instructions
lower_to_ail-IsLowered num program ds options r e =
    let l = lower_to_ail-state num program ds options r e in rw (l.instructions) l.open_state.lines

IsKnown-IsResolved :
    (is : List AilInstruction) (stack : List IfLowerContext) (written : List String) (t : String)
    → end_labels stack ≡ []
    → IsKnown is stack written t
    → IsIn t (label_names is) ⊎ IsIn t written
IsKnown-IsResolved is stack written t e (inl h) = inl h
IsKnown-IsResolved is stack written t e (inr (inl h)) = absurd (subst (λ l. IsIn t l) e h)
IsKnown-IsResolved is stack written t e (inr (inr h)) = inr h

-- No jump of a lowered program dangles by the lowering's fault: unless the diagnostics report a
-- missing ENDIF, every target of a jump or branch is a label of the lowered program or a target that
-- a GOTO of the program writes down.
pub lower_to_ail-IsResolved :
    (num : FloatText) (program : Ast.Program) (ds : List Diagnostic) (options : LowerOptions)
    (r : AilResult)
    → lower_to_ail num program ds options ≡ some r
    → has_missing_endif r.diagnostics ≡ false
    → All
        (λ i.
          All
            (λ t. IsIn t (label_names r.instructions) ⊎ IsIn t (all_written program.lines))
            (jump_targets i))
        r.instructions
lower_to_ail-IsResolved num program ds options r e n =
    let l = lower_to_ail-state num program ds options r e in
    let s = l.state in
    let m : has_missing_endif (s.diagnostics ++ l.missing) ≡ false = rw (← l.diagnostics) n in
    let m' : has_missing_endif l.missing ≡ false =
      ground (arith, m, has_missing_endif-append s.diagnostics l.missing) in
    let c = closed s.instructions s.if_stack l.missing l.missing_of l.open_state.branches m' in
    rw (l.instructions) (
      All-imp s.instructions
        (λ i h.
          All-imp (jump_targets i)
            (λ t k. IsKnown-IsResolved s.instructions s.if_stack (all_written program.lines) t c k)
            h)
        l.open_state.targets)
