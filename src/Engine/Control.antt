-- ===== src/Engine/Control.antt =====
-- src/streaming_execution_engine.cpp: pushChunk, pump, finish, resume and cancel.
use experimental_gcode_parse.Prelude.{
  ℕ, suc, ◌+◌, Bytes, Bool, true, false, ◌&&◌, not, List, [], ◌∷◌, ◌++◌, length, Option, none, some,
  ◌==◌, if◌then◌else◌,
}
use experimental_gcode_parse.Floats.{FloatOps}
use experimental_gcode_parse.Lowering.{LowerOptions}
use experimental_gcode_parse.Ail.{AilResult, has_value}
use experimental_gcode_parse.Runtime.{
  WaitToken, token_eq, BlockedState, EngineState, StepStatus, StepResult,
}
use experimental_gcode_parse.Host.{Event}
use experimental_gcode_parse.Executor.State.{AilExecutor}
use experimental_gcode_parse.Executor.Step.{notify_event}
use experimental_gcode_parse.Engine.Lines.{complete_lines}
use experimental_gcode_parse.Engine.State.{
  StreamingExecutionEngine, Streaming, PendingLine, plain, make_fault_diagnostic,
  fault_with_diagnostic, settle,
}
use experimental_gcode_parse.Engine.Advance.{EngineRuntime, advance_active_executor}
use experimental_gcode_parse.Engine.Pending.{execute_pending_program}

-- Lines with their numbers, counted on from the first.
unfoldable pub number_lines : ℕ → List Bytes → List PendingLine
number_lines n [] = []
number_lines n (text ∷ texts) = record { line = n; text = text } ∷ number_lines (suc n) texts

-- enqueueCompleteLines, on the buffer as it stands
unfoldable pub enqueue_complete_lines : StreamingExecutionEngine → StreamingExecutionEngine
unfolding complete_lines number_lines
enqueue_complete_lines e =
    let (lines, rest) = complete_lines e.input_buffer in
    record e {
      pending_lines = e.pending_lines ++ number_lines e.next_line_number lines;
      next_line_number = e.next_line_number + length lines;
      input_buffer = rest;
    }

-- The states in which no more input is taken.
unfoldable pub is_closed : EngineState → Bool
is_closed EngineState.cancelled = true
is_closed EngineState.completed = true
is_closed EngineState.faulted = true
is_closed EngineState.rejected = true
is_closed EngineState.accepting_input = false
is_closed EngineState.ready_to_execute = false
is_closed EngineState.blocked = false

-- StreamingExecutionEngine::pushChunk
unfoldable pub push_chunk : Bytes → StreamingExecutionEngine → StreamingExecutionEngine × Bool
unfolding enqueue_complete_lines is_closed
push_chunk chunk e =
    if is_closed e.state
    then (e, false)
    else (enqueue_complete_lines (record e { input_buffer = e.input_buffer ++ chunk }), true)

-- StreamingExecutionEngine::cancel; the runtime hears of the wait that is given up.
unfoldable pub cancel_wait : Option BlockedState → Streaming → Streaming
cancel_wait none s = s
cancel_wait (some suspension) s = record {
  engine = record s.engine { blocked = none };
  trace = Event.cancel_wait suspension.token ∷ s.trace;
}

unfoldable pub is_blocked : EngineState → Bool
is_blocked EngineState.blocked = true
is_blocked _ = false

unfoldable pub cancel : Streaming → Streaming
unfolding cancel_wait is_blocked
cancel s =
    let released = if is_blocked s.engine.state then cancel_wait s.engine.blocked s else s in
    record released {
      engine = record released.engine { active_executor = none; state = EngineState.cancelled };
    }

-- The part of pump behind its tests on the state. `cancelled` is the answer of
-- ICancellation::isCancelled, should it be asked.
unfoldable pub pump_open :
    ℕ
    → FloatOps
    → EngineRuntime
    → (Bytes → LowerOptions → AilResult)
    → Bool
    → Streaming
    → Option (StepResult × Streaming)
unfolding cancel advance_active_executor execute_pending_program
pump_open fuel ops r parse_and_lower_ail cancelled s = elim s.engine.active_executor [
  | some e ↦ advance_active_executor fuel ops r s
  | none ↦
      if cancelled
      then some (plain StepStatus.cancelled, cancel s)
      else elim s.engine.pending_lines [
        | line ∷ lines ↦
            execute_pending_program fuel ops r parse_and_lower_ail s.engine.pending_lines s
        | [] ↦ some (settle s.engine.input_finished s)
      ]
]

-- pump, by the state of the engine
unfoldable pub pump_in :
    EngineState
    → ℕ
    → FloatOps
    → EngineRuntime
    → (Bytes → LowerOptions → AilResult)
    → Bool
    → Streaming
    → Option (StepResult × Streaming)
unfolding pump_open settle
pump_in EngineState.faulted fuel ops r parse_and_lower_ail cancelled s =
    some (plain StepStatus.faulted, s)
pump_in EngineState.rejected fuel ops r parse_and_lower_ail cancelled s =
    some (record (plain StepStatus.rejected) { rejected = s.engine.rejected }, s)
pump_in EngineState.cancelled fuel ops r parse_and_lower_ail cancelled s =
    some (plain StepStatus.cancelled, s)
pump_in EngineState.completed fuel ops r parse_and_lower_ail cancelled s =
    some (plain StepStatus.completed, s)
pump_in EngineState.blocked fuel ops r parse_and_lower_ail cancelled s =
    some (record (plain StepStatus.blocked) { blocked = s.engine.blocked }, s)
pump_in EngineState.accepting_input fuel ops r parse_and_lower_ail cancelled s =
    pump_open fuel ops r parse_and_lower_ail cancelled s
pump_in EngineState.ready_to_execute fuel ops r parse_and_lower_ail cancelled s =
    pump_open fuel ops r parse_and_lower_ail cancelled s

-- StreamingExecutionEngine::pump
unfoldable pub pump :
    ℕ
    → FloatOps
    → EngineRuntime
    → (Bytes → LowerOptions → AilResult)
    → Bool
    → Streaming
    → Option (StepResult × Streaming)
unfolding pump_in
pump fuel ops r parse_and_lower_ail cancelled s =
    pump_in s.engine.state fuel ops r parse_and_lower_ail cancelled s

-- The rest of the buffer becomes a last line.
unfoldable pub flush_buffer : Bytes → StreamingExecutionEngine → StreamingExecutionEngine
flush_buffer [] e = e
flush_buffer (c ∷ cs) e = record e {
  pending_lines = e.pending_lines ++ record { line = e.next_line_number; text = c ∷ cs } ∷ [];
  next_line_number = suc e.next_line_number;
  input_buffer = [];
}

unfoldable pub close_input : StreamingExecutionEngine → StreamingExecutionEngine
unfolding flush_buffer
close_input e = flush_buffer e.input_buffer (record e { input_finished = true })

-- StreamingExecutionEngine::finish
unfoldable pub finish :
    ℕ
    → FloatOps
    → EngineRuntime
    → (Bytes → LowerOptions → AilResult)
    → Bool
    → Streaming
    → Option (StepResult × Streaming)
unfolding close_input pump
finish fuel ops r parse_and_lower_ail cancelled s =
    pump fuel ops r parse_and_lower_ail cancelled (record s { engine = close_input s.engine })

unfoldable pub notify_executor : WaitToken → Option AilExecutor → Option AilExecutor
unfolding notify_event
notify_executor token none = none
notify_executor token (some e) = some (notify_event token e)

unfoldable pub no_more_work : StreamingExecutionEngine → Bool
no_more_work e =
    not (has_value e.active_executor)
    && elim e.pending_lines [ [] ↦ true | l ∷ ls ↦ false ]
    && e.input_finished

-- resume with the token that the engine waits for
unfoldable pub resume_with : WaitToken → Streaming → StepResult × Streaming
unfolding notify_executor no_more_work settle
resume_with token s =
    let woken : StreamingExecutionEngine = record s.engine {
      active_executor = notify_executor token s.engine.active_executor;
      blocked = none;
      rejected = none;
    } in
    settle (no_more_work woken) (record s { engine = woken })

-- StreamingExecutionEngine::resume
unfoldable pub resume : WaitToken → Streaming → StepResult × Streaming
unfolding resume_with fault_with_diagnostic make_fault_diagnostic is_blocked
resume token s = elim (if is_blocked s.engine.state then s.engine.blocked else none) [
  | none ↦ fault_with_diagnostic (make_fault_diagnostic 0 "resume called while not blocked") s
  | some suspension ↦
      if suspension.token == token
      then resume_with token s
      else fault_with_diagnostic
          (make_fault_diagnostic suspension.line "resume token does not match") s
]
