-- ===== src/Semantic/Additions.antt =====
-- What addSemanticDiagnostics adds to the diagnostics of the parser.
use mathlib.Core.List.{append_assoc, append-nil}
use experimental_gcode_parse.Prelude.{
  ℤ, Bool, true, false, List, [], ◌∷◌, ◌++◌, Option, none, some, ◌≡◌, refl, arith, Bool-cases,
  Option-cases, inl, inr, All, ◌∙◌, sym, ◌⊎◌, IsIn,
}
use experimental_gcode_parse.Floats.{FloatText}
use experimental_gcode_parse.Ast.{Diagnostic, Line, LineNumber, ParseResult}
use experimental_gcode_parse.Semantic.Program.{
  RuleOptions, LineSemanticRule, make_rules, apply_rules, check_number, check_lines,
  add_semantic_diagnostics, has_line_number_target_jump, duplicate_warning, contains_number,
}

-- A line that no rule complains about.
abbrev pub Passes : List LineSemanticRule → Line → Type 0
Passes rules line = All (λ rule. rule line ≡ none) rules

-- The lines, and what was added for each: the diagnostics in the order of the lines.
pub data IsReport (rules : List LineSemanticRule) : List Line → List Diagnostic → Type 0 where
  nothing : IsReport rules [] []
  line_of :
      {lines : List Line} {more : List Diagnostic} (line : Line) (warnings errors : List Diagnostic)
      → (warnings ≡ [])
        ⊎ ((n : LineNumber) × (line.line_number ≡ some n) × (warnings ≡ duplicate_warning n ∷ []))
      → ((errors ≡ []) × Passes rules line)
        ⊎ ((d : Diagnostic) × (errors ≡ d ∷ [])
            × (rule : LineSemanticRule) × IsIn rule rules
            × (rule line ≡ some d))
      → IsReport rules lines more
      → IsReport rules (line ∷ lines) (warnings ++ (errors ++ more))

apply_rules-cases :
    (rules : List LineSemanticRule) (line : Line)
    → ((apply_rules rules line ≡ []) × Passes rules line)
      ⊎ ((d : Diagnostic) × (apply_rules rules line ≡ d ∷ [])
          × (rule : LineSemanticRule) × IsIn rule rules
          × (rule line ≡ some d))
unfolding apply_rules
apply_rules-cases [] line = inl (refl, tt)
apply_rules-cases (rule ∷ rules) line = elim (Option-cases (rule line)) [
  | inl q ↦ elim (apply_rules-cases rules line) [
    | inl h ↦ inl (ground (arith, q, h.0), (q, h.1))
    | inr h ↦ inr (h.0, ground (arith, q, h.1), h.2, inr h.3, h.4)
  ]
  | inr q ↦ inr (q.0, ground (arith, q.1), rule, inl refl, q.1)
]

check_number-cases :
    (jumps : Bool) (o : Option LineNumber) (seen : List ℤ)
    → ((check_number jumps o seen).0 ≡ [])
      ⊎ ((n : LineNumber) × (o ≡ some n)
          × ((check_number jumps o seen).0 ≡ duplicate_warning n ∷ []))
unfolding check_number
check_number-cases jumps none seen = inl refl
check_number-cases false (some n) seen = inl refl
check_number-cases true (some n) seen = elim (Bool-cases (contains_number n.value seen)) [
  | inl q ↦ inr (n, refl, rw (q) refl)
  | inr q ↦ inl (rw (q) refl)
]

check_lines-IsReport :
    (rules : List LineSemanticRule) (jumps : Bool) (lines : List Line) (seen : List ℤ)
    (ds : List Diagnostic)
    → (more : List Diagnostic) × (check_lines rules jumps lines seen ds ≡ ds ++ more)
      × IsReport rules lines more
unfolding check_lines
check_lines-IsReport rules jumps [] seen ds = ([], sym (append-nil ds), nothing)
check_lines-IsReport rules jumps (line ∷ lines) seen ds =
    let checked = check_number jumps line.line_number seen in
    let added = apply_rules rules line in
    let (more, e, r) =
      check_lines-IsReport rules jumps lines checked.1 ((ds ++ checked.0) ++ added) in
    (
      checked.0 ++ (added ++ more),
      e ∙ append_assoc (ds ++ checked.0) added more ∙ append_assoc ds checked.0 (added ++ more),
      line_of line checked.0 added (check_number-cases jumps line.line_number seen)
          (apply_rules-cases rules line) r,
    )

-- The semantic check keeps the diagnostics of the parser and adds its own behind them, line by line:
-- for each line at most one warning, about that line's number, and then the diagnostic of one rule
-- that the line breaks, or nothing exactly where every rule accepts the line. The lines stay.
pub add_semantic_diagnostics-IsReport :
    (num : FloatText) (o : RuleOptions) (result : ParseResult)
    → (more : List Diagnostic) × ((add_semantic_diagnostics num o result).diagnostics
        ≡ result.diagnostics ++ more)
      × IsReport (make_rules num o) result.program.lines more
      × ((add_semantic_diagnostics num o result).program ≡ result.program)
unfolding add_semantic_diagnostics
add_semantic_diagnostics-IsReport num o result =
    let (more, e, r) =
      check_lines-IsReport (make_rules num o) (has_line_number_target_jump result.program.lines)
        result.program.lines [] result.diagnostics in
    (more, e, r, refl)
