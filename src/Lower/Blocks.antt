-- ===== src/Lower/Blocks.antt =====
-- src/ail.cpp: the state of lowerToAil, and the lines that are a statement.
use experimental_gcode_parse.Prelude.{
  ℕ, zero, suc, pos, String, ◌+++◌, Bool, true, false, List, [], ◌∷◌, ◌++◌, Option, none, some,
  if◌then◌else◌, ◌==◌, string_eq, to_string, to_upper, length,
}
use experimental_gcode_parse.Floats.{FloatText}
use experimental_gcode_parse.Ast.{
  Diagnostic, Condition, Assignment, GotoStatement, IfGotoStatement, ConditionStatement,
  KeywordStatement,
}
use experimental_gcode_parse.Lowering.{LowerOptions, SourceInfo, error_at}
use experimental_gcode_parse.Ail.{
  AilInstruction, linear_move, arc_move, dwell, mcode, rapid_traverse_mode, tool_radius_comp,
  working_plane, tool_select, tool_change, return_boundary, subprogram_call, assign, label, goto_,
  branch_if, sync, Goto, BranchIf, ToolSelect, RapidInterpolationMode, WorkingPlane,
}
use experimental_gcode_parse.Lower.Words.{tool_select_from_assignment}

pub record IfLowerContext : Type 0 where
  pub branch_index : ℕ
  pub end_label : String
  pub has_else : Bool

-- The local variables of lowerToAil. The back of the vector `if_stack` is the head of the list.
pub record LowerState : Type 0 where
  pub instructions : List AilInstruction
  pub diagnostics : List Diagnostic
  pub if_stack : List IfLowerContext
  pub generated_label_counter : ℕ
  pub current_rapid_mode : Option RapidInterpolationMode
  pub current_working_plane : WorkingPlane

-- `result.instructions.push_back`
abbrev pub emit : AilInstruction → LowerState → LowerState
emit i s = record s { instructions = s.instructions ++ i ∷ [] }

-- `result.diagnostics.push_back`
abbrev pub note_diagnostic : Diagnostic → LowerState → LowerState
note_diagnostic d s = record s { diagnostics = s.diagnostics ++ d ∷ [] }

-- The name that makeInternalLabel makes for a value of the counter.
unfoldable pub internal_label : String → ℕ → String
internal_label prefix n = "__CF_" +++ (prefix +++ ("_" +++ to_string (pos n)))

abbrev pub goto_label : SourceInfo → String → Goto
goto_label source target = record {
  source = source;
  opcode = "GOTO";
  target = target;
  target_kind = "label";
}

-- An assignment, by the tool selection that it may be.
unfoldable pub emit_assignment :
    SourceInfo → Assignment → Option ToolSelect → LowerState → LowerState
emit_assignment source a (some selected) s = emit (tool_select selected) s
emit_assignment source a none s =
    emit (assign (record { source = source; lhs = a.lhs; rhs = a.rhs })) s

-- A line with an assignment.
unfoldable pub lower_assignment :
    FloatText → LowerOptions → SourceInfo → Assignment → LowerState → LowerState
unfolding tool_select_from_assignment emit_assignment
lower_assignment num options source a s =
    if to_upper a.lhs == "PROC"
    then note_diagnostic (error_at a.location "malformed PROC declaration; expected PROC <name>") s
    else emit_assignment source a (tool_select_from_assignment num a source options) s

-- The branch that an IF line starts with.
abbrev pub if_branch : SourceInfo → Condition → String → String → BranchIf
if_branch source condition then_label end_label = record {
  source = source;
  condition = condition;
  then_branch = goto_label source then_label;
  else_branch = some (goto_label source end_label);
}

-- A line `IF <condition>`.
unfoldable pub lower_if_start : SourceInfo → ConditionStatement → LowerState → LowerState
unfolding internal_label
lower_if_start source statement s =
    let n = s.generated_label_counter in
    let then_label = internal_label "IF_THEN" (suc n) in
    let end_label = internal_label "IF_END" (suc (suc n)) in
    record s {
      instructions =
          (s.instructions
            ++ branch_if (if_branch source statement.condition then_label end_label) ∷ [])
          ++ label source then_label ∷ [];
      if_stack =
          record { branch_index = length s.instructions; end_label = end_label; has_else = false }
          ∷ s.if_stack;
      generated_label_counter = suc (suc n);
    }

-- `else_branch->target = …` on a branch that has one.
abbrev pub retarget : String → BranchIf → BranchIf
retarget target b = record b {
  else_branch = elim b.else_branch [ none ↦ none | some g ↦ some (record g { target = target }) ];
}

-- `std::get<AilBranchIfInstruction>`: `none` where it throws.
unfoldable pub get_branch : AilInstruction → Option BranchIf
get_branch (linear_move i) = none
get_branch (arc_move i) = none
get_branch (dwell i) = none
get_branch (mcode i) = none
get_branch (rapid_traverse_mode s m) = none
get_branch (tool_radius_comp s m) = none
get_branch (working_plane s p) = none
get_branch (tool_select i) = none
get_branch (tool_change s t) = none
get_branch (return_boundary s o) = none
get_branch (subprogram_call i) = none
get_branch (assign i) = none
get_branch (label s n) = none
get_branch (goto_ i) = none
get_branch (branch_if i) = some i
get_branch (sync s t) = none

-- The update of the branch at an index; `none` where std::get throws, or the index is out of range.
unfoldable pub set_else_target : ℕ → String → List AilInstruction → Option (List AilInstruction)
unfolding get_branch
set_else_target n target [] = none
set_else_target zero target (i ∷ is) = elim (get_branch i) [
  | none ↦ none
  | some b ↦ some (branch_if (retarget target b) ∷ is)
]
set_else_target (suc n) target (i ∷ is) = elim (set_else_target n target is) [
  | none ↦ none
  | some js ↦ some (i ∷ js)
]

-- What follows the update of the branch.
unfoldable pub finish_else :
    SourceInfo
    → IfLowerContext
    → List IfLowerContext
    → String
    → Option (List AilInstruction)
    → LowerState
    → Option LowerState
finish_else source ctx outer else_label none s = none
finish_else source ctx outer else_label (some instructions) s = some (record s {
  instructions = instructions ++ label source else_label ∷ [];
  if_stack = record ctx { has_else = true } ∷ outer;
  generated_label_counter = suc s.generated_label_counter;
})

-- A line `ELSE`, behind the two checks.
unfoldable pub lower_else_of :
    SourceInfo → IfLowerContext → List IfLowerContext → LowerState → Option LowerState
unfolding internal_label set_else_target finish_else
lower_else_of source ctx outer s =
    let else_label = internal_label "IF_ELSE" (suc s.generated_label_counter) in
    finish_else source ctx outer else_label
      (set_else_target ctx.branch_index else_label
        (s.instructions ++ goto_ (goto_label source ctx.end_label) ∷ []))
      s

unfoldable pub lower_else_on :
    SourceInfo → KeywordStatement → List IfLowerContext → LowerState → Option LowerState
unfolding lower_else_of
lower_else_on source statement [] s =
    some (note_diagnostic (error_at statement.keyword_location "ELSE without matching IF") s)
lower_else_on source statement (ctx ∷ outer) s =
    if ctx.has_else
    then some
        (note_diagnostic (error_at statement.keyword_location "duplicate ELSE for IF block") s)
    else lower_else_of source ctx outer s

-- A line `ELSE`.
unfoldable pub lower_else : SourceInfo → KeywordStatement → LowerState → Option LowerState
unfolding lower_else_on
lower_else source statement s = lower_else_on source statement s.if_stack s

unfoldable pub lower_endif_on :
    SourceInfo → KeywordStatement → List IfLowerContext → LowerState → LowerState
lower_endif_on source statement [] s =
    note_diagnostic (error_at statement.keyword_location "ENDIF without matching IF") s
lower_endif_on source statement (ctx ∷ outer) s =
    emit (label source ctx.end_label) (record s { if_stack = outer })

-- A line `ENDIF`.
unfoldable pub lower_endif : SourceInfo → KeywordStatement → LowerState → LowerState
unfolding lower_endif_on
lower_endif source statement s = lower_endif_on source statement s.if_stack s

unfoldable pub goto_of : SourceInfo → GotoStatement → Goto
goto_of source g = record {
  source = source;
  opcode = g.opcode;
  target = g.target;
  target_kind = g.target_kind;
}

-- A line `IF <condition> GOTO …`.
unfoldable pub if_goto_of : SourceInfo → IfGotoStatement → BranchIf
unfolding goto_of
if_goto_of source statement = record {
  source = source;
  condition = statement.condition;
  then_branch = goto_of source statement.then_branch;
  else_branch = elim statement.else_branch [ none ↦ none | some g ↦ some (goto_of source g) ];
}
