-- ===== src/Executor/Subprogram.antt =====
-- src/ail.cpp: subprogram calls and returns.
pub mod Rounds
use experimental_gcode_parse.Prelude.{
  ℕ, zero, suc, ℤ, pos, negsuc, leb_ℤ, String, ◌+++◌, Bool, true, false, ◌&&◌, ◌||◌, not, List, [],
  ◌∷◌, length, Option, none, some, ◌==◌, string_eq, nat_eq, ltb, if◌then◌else◌, lookup, lookup_all,
  is_empty,
}
use Prim.Native.Char.{code}
use experimental_gcode_parse.Lowering.{SourceInfo, ErrorPolicy}
use experimental_gcode_parse.Ail.{
  SubprogramResolution, SubprogramSearchPolicy, SubprogramCall, LabelPositionMap,
}
use experimental_gcode_parse.Executor.State.{
  AilExecutorOptions, AilExecutor, SubprogramCallFrame, add_fault, add_warning, next_pc,
}
use experimental_gcode_parse.Lowering.{value_or}

-- What follows the last `/` or `\` of a text; `none` where it has neither.
unfoldable pub after_last_slash : String → Option String
after_last_slash String.[] = none
after_last_slash (String.◌∷◌ c s) = elim (after_last_slash s) [
  | some rest ↦ some rest
  | none ↦ if code c == b'/' || code c == 92 then some s else none
]

-- bareSubprogramName
unfoldable pub bare_subprogram_name : String → String
unfolding after_last_slash
bare_subprogram_name target = elim (after_last_slash target) [
  | none ↦ target
  | some rest ↦ if is_empty rest then target else rest
]

-- A label that the program has: `it != end() && !it->second.empty()`.
unfoldable pub is_label : String → LabelPositionMap → Bool
is_label name positions = elim (lookup_all name positions) [ [] ↦ false | p ∷ ps ↦ true ]

abbrev pub found : String → Bool → String → SubprogramResolution
found target fallback message = record {
  resolved = true;
  resolved_target = target;
  fallback_used = fallback;
  message = message;
}

abbrev pub not_found : String → SubprogramResolution
not_found target = record {
  resolved = false;
  resolved_target = target;
  fallback_used = false;
  message = "";
}

unfoldable pub resolve_by_bare_name :
    String → LabelPositionMap → AilExecutorOptions → SubprogramResolution
unfolding bare_subprogram_name is_label
resolve_by_bare_name requested positions options = elim options.subprogram_search_policy [
  | SubprogramSearchPolicy.exact_only ↦ not_found requested
  | SubprogramSearchPolicy.exact_then_bare_name ↦
      let fallback = bare_subprogram_name requested in
      if not (fallback == requested) && is_label fallback positions
      then found fallback true (
          "subprogram target resolved by bare-name fallback: "
          +++ (requested +++ (" -> " +++ fallback)))
      else not_found requested
]

unfoldable pub resolve_by_alias :
    String → LabelPositionMap → AilExecutorOptions → SubprogramResolution
unfolding resolve_by_bare_name is_label
resolve_by_alias requested positions options =
    elim (lookup requested options.subprogram_alias_map) [
      | none ↦ resolve_by_bare_name requested positions options
      | some target ↦
          if is_label target positions
          then found target false
              ("subprogram target resolved by alias map: " +++ (requested +++ (" -> " +++ target)))
          else resolve_by_bare_name requested positions options
    ]

-- defaultResolveSubprogramTarget
unfoldable pub default_resolve_subprogram_target :
    String → LabelPositionMap → AilExecutorOptions → SubprogramResolution
unfolding resolve_by_alias is_label
default_resolve_subprogram_target requested positions options =
    if is_label requested positions
    then found requested false ""
    else resolve_by_alias requested positions options

unfoldable pub resolve_subprogram_target : String → AilExecutor → SubprogramResolution
unfolding default_resolve_subprogram_target
resolve_subprogram_target target e = elim e.options.subprogram_target_resolver [
  | some resolver ↦ resolver target e.label_positions
  | none ↦ default_resolve_subprogram_target target e.label_positions e.options
]

-- `frame.remaining_repeats - 1`
unfoldable pub decrement : ℤ → ℤ
decrement (pos zero) = negsuc zero
decrement (pos (suc n)) = pos n
decrement (negsuc n) = negsuc (suc n)

-- The branch of advanceOneInstruction on a return boundary, by the frames from the back.
unfoldable pub return_to :
    SourceInfo → String → List SubprogramCallFrame → AilExecutor → AilExecutor
unfolding add_fault decrement
return_to source opcode [] e =
    add_fault source ("return boundary encountered with empty call stack: " +++ opcode) e
return_to source opcode (frame ∷ frames) e =
    if leb_ℤ frame.remaining_repeats (pos 1)
    then record e {
      call_stack_frames = frames;
      state = record e.state { pc = frame.return_pc; call_stack_depth = length frames };
    }
    else record e {
      call_stack_frames =
          record frame { remaining_repeats = decrement frame.remaining_repeats } ∷ frames;
      state = record e.state { pc = frame.target_pc };
    }

unfoldable pub return_from_subprogram : SourceInfo → String → AilExecutor → AilExecutor
unfolding return_to
return_from_subprogram source opcode e = return_to source opcode e.call_stack_frames e

unfoldable pub unresolved_call : SubprogramCall → AilExecutor → AilExecutor
unfolding add_fault add_warning next_pc
unresolved_call call e = elim e.options.unresolved_subprogram_policy [
  | ErrorPolicy.error ↦ add_fault call.source ("unresolved subprogram target: " +++ call.target) e
  | ErrorPolicy.warning ↦ next_pc (
      add_warning call.source
        ("unresolved subprogram target: " +++ (call.target +++ "; ignored by policy")) e)
  | ErrorPolicy.ignore ↦ next_pc e
]

-- The warnings of a call whose target was found at `positions`.
unfoldable pub warn_call :
    SubprogramCall → SubprogramResolution → List ℕ → AilExecutor → AilExecutor
unfolding add_warning
warn_call call resolution positions e =
    let named =
      if is_empty resolution.message then e else add_warning call.source resolution.message e in
    if ltb 1 (length positions)
    then add_warning call.source
        ("duplicate subprogram target labels for "
          +++ (resolution.resolved_target +++ "; using first definition"))
        named
    else named

unfoldable pub enter_subprogram : SubprogramCall → ℕ → AilExecutor → AilExecutor
unfolding add_warning next_pc
enter_subprogram call target e =
    let repeat_count = value_or call.repeat_count (pos 1) in
    if leb_ℤ repeat_count (pos 0)
    then next_pc (
        add_warning call.source ("subprogram repeat count <= 0 ignored for target " +++ call.target)
          e)
    else record e {
      call_stack_frames =
          record {
            return_pc = suc e.state.pc;
            target_pc = target;
            remaining_repeats = repeat_count;
          }
          ∷ e.call_stack_frames;
      state = record e.state { pc = target; call_stack_depth = suc (length e.call_stack_frames) };
    }

-- A call whose target is a label at `positions`.
unfoldable pub call_found :
    SubprogramCall → SubprogramResolution → List ℕ → AilExecutor → AilExecutor
unfolding warn_call enter_subprogram add_fault
call_found call resolution [] e =
    add_fault call.source
      ("subprogram policy resolved missing target: " +++ resolution.resolved_target) e
call_found call resolution (target ∷ others) e =
    enter_subprogram call target (warn_call call resolution (target ∷ others) e)

-- The branch of advanceOneInstruction on a call.
unfoldable pub call_subprogram : SubprogramCall → AilExecutor → AilExecutor
unfolding resolve_subprogram_target unresolved_call call_found
call_subprogram call e =
    let resolution = resolve_subprogram_target call.target e in
    if resolution.resolved
    then call_found call resolution (lookup_all resolution.resolved_target e.label_positions) e
    else unresolved_call call e
