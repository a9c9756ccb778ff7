-- ===== src/Executor/Goto.antt =====
-- src/ail.cpp: AilExecutor::resolveGotoTarget.
pub mod Nearest
use experimental_gcode_parse.Prelude.{
  ℕ, suc, ◌<◌, ℤ, String, ◌+++◌, Bool, true, false, ◌&&◌, ◌||◌, List, [], ◌∷◌, Option, none, some,
  ◌==◌, int_eq, string_eq, ltb, if◌then◌else◌, lookup_all, front_is, substr1, stoi,
}
use experimental_gcode_parse.Ail.{Goto}
use experimental_gcode_parse.Executor.State.{AilExecutor, add_warning}

-- `pick_forward`: the best candidate so far is `none` where the source has SIZE_MAX.
unfoldable pub better_forward : ℕ → Option ℕ → ℕ → Option ℕ
better_forward current none idx = if ltb current idx then some idx else none
better_forward current (some best) idx =
    if ltb current idx && ltb idx best then some idx else some best

unfoldable pub pick_forward_from : ℕ → Option ℕ → List ℕ → Option ℕ
unfolding better_forward
pick_forward_from current best [] = best
pick_forward_from current best (idx ∷ rest) =
    pick_forward_from current (better_forward current best idx) rest

unfoldable pub pick_forward : ℕ → List ℕ → Option ℕ
unfolding pick_forward_from
pick_forward current candidates = pick_forward_from current none candidates

-- `pick_backward`: `none` is `found == false`.
unfoldable pub better_backward : ℕ → Option ℕ → ℕ → Option ℕ
better_backward current none idx = if ltb idx current then some idx else none
better_backward current (some best) idx =
    if ltb idx current && ltb best idx then some idx else some best

unfoldable pub pick_backward_from : ℕ → Option ℕ → List ℕ → Option ℕ
unfolding better_backward
pick_backward_from current best [] = best
pick_backward_from current best (idx ∷ rest) =
    pick_backward_from current (better_backward current best idx) rest

unfoldable pub pick_backward : ℕ → List ℕ → Option ℕ
unfolding pick_backward_from
pick_backward current candidates = pick_backward_from current none candidates

-- How many candidates pass a test.
unfoldable pub count_if : (ℕ → Bool) → List ℕ → ℕ
count_if test [] = 0
count_if test (idx ∷ rest) = if test idx then suc (count_if test rest) else count_if test rest

-- The line number that a target names; `none` where `std::stoi` throws.
unfoldable pub target_line_number : Goto → Option ℤ
target_line_number inst =
    if inst.target_kind == "line_number" && (front_is b'N' inst.target || front_is b'n' inst.target)
    then stoi (substr1 inst.target)
    else stoi inst.target

-- The candidates; `none` where the function returns before it looks any up.
unfoldable pub goto_candidates : AilExecutor → Goto → Option (List ℕ)
unfolding target_line_number
goto_candidates e inst =
    if inst.target_kind == "label"
    then some (lookup_all inst.target e.label_positions)
    else if inst.target_kind == "line_number" || inst.target_kind == "number"
    then elim (target_line_number inst) [
      | none ↦ none
      | some line_number ↦ some (lookup_all line_number e.line_number_positions)
    ]
    else none

-- The warning on more than one candidate, for targets by number only.
unfoldable pub warn_multiple : String → Goto → ℕ → AilExecutor → AilExecutor
warn_multiple direction inst count e =
    if ltb 1 count && (inst.target_kind == "line_number" || inst.target_kind == "number")
    then add_warning inst.source
        ("multiple "
          +++ (direction
              +++ (" blocks match target "
                  +++ (inst.target +++ ("; using nearest " +++ (direction +++ " block"))))))
        e
    else e

unfoldable pub warn_forward : ℕ → List ℕ → Goto → AilExecutor → AilExecutor
unfolding warn_multiple
warn_forward current candidates inst e =
    warn_multiple "forward" inst (count_if (ltb current) candidates) e

unfoldable pub warn_backward : ℕ → List ℕ → Goto → AilExecutor → AilExecutor
unfolding warn_multiple
warn_backward current candidates inst e =
    warn_multiple "backward" inst (count_if (λ idx. ltb idx current) candidates) e

unfoldable pub pick_any : ℕ → List ℕ → Goto → AilExecutor → Option ℕ × AilExecutor
pick_any current candidates inst e = elim (pick_forward current candidates) [
  | some target ↦ (some target, warn_forward current candidates inst e)
  | none ↦ (pick_backward current candidates, warn_backward current candidates inst e)
]

-- The choice by opcode among candidates that are not empty.
unfoldable pub pick_by_opcode : ℕ → List ℕ → Goto → AilExecutor → Option ℕ × AilExecutor
unfolding pick_any
pick_by_opcode current candidates inst e =
    if inst.opcode == "GOTOF"
    then (pick_forward current candidates, warn_forward current candidates inst e)
    else if inst.opcode == "GOTOB"
    then (pick_backward current candidates, warn_backward current candidates inst e)
    else if inst.opcode == "GOTO" || inst.opcode == "GOTOC"
    then pick_any current candidates inst e
    else (none, e)

-- AilExecutor::resolveGotoTarget
unfoldable pub resolve_goto_target : ℕ → Goto → AilExecutor → Option ℕ × AilExecutor
unfolding goto_candidates
resolve_goto_target current inst e = elim (goto_candidates e inst) [
  | none ↦ (none, e)
  | some [] ↦ (none, e)
  | some (c ∷ cs) ↦ pick_by_opcode current (c ∷ cs) inst e
]
