-- ===== src/Engine/Pending.antt =====
-- src/streaming_execution_engine.cpp: executePendingProgram and the remapping of line numbers. The
-- parser and the lowering are the function `parse_and_lower_ail`.
use experimental_gcode_parse.Prelude.{
  ℕ, ◌+◌, ◌-◌, Bytes, Bool, false, ◌&&◌, ◌||◌, not, List, [], ◌∷◌, map, Option, none, some, ltb,
  leb, length, get_or, if◌then◌else◌, ◌==◌, string_eq,
}
use experimental_gcode_parse.Floats.{FloatOps}
use experimental_gcode_parse.Ast.{Diagnostic}
use experimental_gcode_parse.Lowering.{LowerOptions, SourceInfo, RejectedLine}
use experimental_gcode_parse.Ail.{
  AilInstruction, AilResult, linear_move, arc_move, dwell, mcode, rapid_traverse_mode,
  tool_radius_comp, working_plane, tool_select, tool_change, return_boundary, subprogram_call,
  assign, label, goto_, branch_if, sync,
}
use experimental_gcode_parse.Runtime.{EngineState, RejectedState, StepStatus, StepResult}
use experimental_gcode_parse.Host.{Event}
use experimental_gcode_parse.Executor.State.{AilExecutorInitialState, default_options}
use experimental_gcode_parse.Executor.Command.{to_source_ref}
use experimental_gcode_parse.Executor.Step.{make_executor}
use experimental_gcode_parse.Engine.Lines.{join_lines}
use experimental_gcode_parse.Engine.State.{
  StreamingExecutionEngine, Streaming, PendingLine, plain, make_rejected_result, settle,
  emit_diagnostics,
}
use experimental_gcode_parse.Engine.Advance.{EngineRuntime, advance_active_executor}

-- joinPendingLines
unfoldable pub join_pending_lines : List PendingLine → Bytes
unfolding join_lines
join_pending_lines lines = join_lines (map (λ l. l.text) lines)

-- sourceLineMap
unfoldable pub source_line_map : List PendingLine → List ℕ
source_line_map lines = map (λ l. l.line) lines

-- The line of a source, as remapInstructionSourceLines moves it.
unfoldable pub remap_line : List ℕ → ℕ → ℕ
remap_line line_map line =
    if ltb 0 line && leb line (length line_map) then get_or line_map (line - 1) line else line

unfoldable pub remap_source : List ℕ → SourceInfo → SourceInfo
unfolding remap_line
remap_source line_map source = record source { line = remap_line line_map source.line }

-- The visitor of remapInstructionSourceLines.
unfoldable pub remap_instruction : List ℕ → AilInstruction → AilInstruction
unfolding remap_source
remap_instruction lm (linear_move i) = linear_move (record i { source = remap_source lm i.source })
remap_instruction lm (arc_move i) = arc_move (record i { source = remap_source lm i.source })
remap_instruction lm (dwell i) = dwell (record i { source = remap_source lm i.source })
remap_instruction lm (mcode i) = mcode (record i { source = remap_source lm i.source })
remap_instruction lm (rapid_traverse_mode s m) = rapid_traverse_mode (remap_source lm s) m
remap_instruction lm (tool_radius_comp s m) = tool_radius_comp (remap_source lm s) m
remap_instruction lm (working_plane s p) = working_plane (remap_source lm s) p
remap_instruction lm (tool_select i) = tool_select (record i { source = remap_source lm i.source })
remap_instruction lm (tool_change s t) = tool_change (remap_source lm s) t
remap_instruction lm (return_boundary s o) = return_boundary (remap_source lm s) o
remap_instruction lm (subprogram_call i) =
    subprogram_call (record i { source = remap_source lm i.source })
remap_instruction lm (assign i) = assign (record i { source = remap_source lm i.source })
remap_instruction lm (label s n) = label (remap_source lm s) n
remap_instruction lm (goto_ i) = goto_ (record i { source = remap_source lm i.source })
remap_instruction lm (branch_if i) = branch_if (record i { source = remap_source lm i.source })
remap_instruction lm (sync s t) = sync (remap_source lm s) t

-- remapDiagnostics, on one diagnostic. Lines are at least 1 where they are added to.
unfoldable pub remap_diagnostic : ℕ → Diagnostic → Diagnostic
remap_diagnostic line diag = record diag {
  location = record diag.location { line = line + diag.location.line - 1 };
}

-- remapRejectedLines, on one line
unfoldable pub remap_rejected_line : ℕ → RejectedLine → RejectedLine
unfolding remap_diagnostic
remap_rejected_line line rejected = record {
  source = record rejected.source { line = line + rejected.source.line - 1 };
  reasons = map (remap_diagnostic line) rejected.reasons;
}

-- shouldWaitForMoreInputOnRejected
unfoldable pub has_missing_endif : List Diagnostic → Bool
has_missing_endif [] = false
has_missing_endif (d ∷ ds) = d.message == "missing ENDIF for IF block" || has_missing_endif ds

-- makeRejectedEvent, and the RejectedState with the same fields
unfoldable pub rejected_state_of : RejectedLine → RejectedState
unfolding to_source_ref
rejected_state_of rejected = record {
  source = to_source_ref rejected.source;
  reasons = rejected.reasons;
}

-- The initial state that executePendingProgram passes to the new executor: the selected tool and
-- the user variables keep the defaults.
unfoldable pub executor_initial_state : StreamingExecutionEngine → AilExecutorInitialState
executor_initial_state e = record {
  motion_code_current = e.current_motion_code;
  rapid_mode_current = e.current_rapid_mode;
  tool_radius_comp_current = e.current_tool_radius_comp;
  working_plane_current = e.current_working_plane;
  active_tool_selection = e.current_active_tool_selection;
  pending_tool_selection = e.current_pending_tool_selection;
  selected_tool_selection = none;
  user_variables = [];
}

unfoldable pub start_executor :
    List AilInstruction → ℕ → StreamingExecutionEngine → StreamingExecutionEngine
unfolding make_executor executor_initial_state
start_executor instructions line e = record e {
  active_executor = some (
      make_executor instructions
        (record default_options { initial_state = some (executor_initial_state e) }));
  active_executor_line = line;
  active_executor_emitted_diagnostics = 0;
}

-- A program with no instruction.
unfoldable pub finish_without_instructions : List RejectedLine → Streaming → StepResult × Streaming
unfolding rejected_state_of make_rejected_result settle
finish_without_instructions [] s =
    settle s.engine.input_finished (record s { engine = record s.engine { pending_lines = [] } })
finish_without_instructions (rejected ∷ others) s =
    make_rejected_result (rejected_state_of rejected)
      (record s { trace = Event.rejected_line (rejected_state_of rejected) ∷ s.trace })

-- A program with instructions: a rejected line waits until they have run, with its diagnostics.
unfoldable pub defer_rejected : List RejectedLine → List Diagnostic → Streaming → Streaming
unfolding emit_diagnostics rejected_state_of
defer_rejected [] diagnostics s = record {
  engine = record s.engine { deferred_rejected = none };
  trace = emit_diagnostics diagnostics s.trace;
}
defer_rejected (rejected ∷ others) diagnostics s = record s {
  engine = record s.engine { deferred_rejected = some (rejected_state_of rejected) };
}

unfoldable pub waits_for_endif : List RejectedLine → Bool → Bool
unfolding has_missing_endif
waits_for_endif [] input_finished = false
waits_for_endif (rejected ∷ others) input_finished =
    not input_finished && has_missing_endif rejected.reasons

-- The lowered program of the pending lines, with the line numbers of the whole input.
unfoldable pub lower_pending :
    (Bytes → LowerOptions → AilResult) → PendingLine → List PendingLine → LowerOptions → AilResult
unfolding join_pending_lines source_line_map remap_instruction remap_diagnostic remap_rejected_line
lower_pending parse_and_lower_ail first others options =
    let lowered = parse_and_lower_ail (join_pending_lines (first ∷ others)) options in
    record {
      instructions =
          map (remap_instruction (source_line_map (first ∷ others))) lowered.instructions;
      diagnostics = map (remap_diagnostic first.line) lowered.diagnostics;
      rejected_lines = map (remap_rejected_line first.line) lowered.rejected_lines;
    }

-- executePendingProgram once the program is lowered
unfoldable pub execute_lowered :
    ℕ → FloatOps → EngineRuntime → ℕ → AilResult → Streaming → Option (StepResult × Streaming)
unfolding waits_for_endif finish_without_instructions emit_diagnostics defer_rejected start_executor
execute_lowered fuel ops r line lowered s =
    if waits_for_endif lowered.rejected_lines s.engine.input_finished
    then some (
      plain StepStatus.progress,
      record s { engine = record s.engine { state = EngineState.ready_to_execute } },
    )
    else elim lowered.instructions [
      | [] ↦ some (
          finish_without_instructions lowered.rejected_lines
            (record s { trace = emit_diagnostics lowered.diagnostics s.trace }))
      | inst ∷ insts ↦
          let deferred = defer_rejected lowered.rejected_lines lowered.diagnostics s in
          advance_active_executor fuel ops r
            (record deferred { engine = start_executor (inst ∷ insts) line deferred.engine })
    ]

-- executePendingProgram
unfoldable pub execute_pending_program :
    ℕ
    → FloatOps
    → EngineRuntime
    → (Bytes → LowerOptions → AilResult)
    → List PendingLine
    → Streaming
    → Option (StepResult × Streaming)
unfolding execute_lowered lower_pending
execute_pending_program fuel ops r parse_and_lower_ail [] s = some (plain StepStatus.progress, s)
execute_pending_program fuel ops r parse_and_lower_ail (first ∷ others) s =
    execute_lowered fuel ops r first.line
      (lower_pending parse_and_lower_ail first others s.engine.options) s
