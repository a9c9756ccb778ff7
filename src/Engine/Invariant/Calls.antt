-- ===== src/Engine/Invariant/Calls.antt =====
-- src/streaming_execution_engine.cpp: every call keeps the engine valid, and a result goes with the
-- state that the call leaves.
use experimental_gcode_parse.Prelude.{
  ℕ, ◌≡◌, inl, inr, refl, ◌∙◌, Bool, true, false, List, [], ◌∷◌, Bytes, Option, none, some,
  if_either, if◌then◌else◌, arith, ◌==◌, not, ◌&&◌,
}
use experimental_gcode_parse.Floats.{FloatOps}
use experimental_gcode_parse.Lowering.{LowerOptions}
use experimental_gcode_parse.Ail.{AilResult, has_value}
use experimental_gcode_parse.Runtime.{WaitToken, token_eq, BlockedState, EngineState, StepStatus}
use experimental_gcode_parse.Executor.State.{AilExecutor}
use experimental_gcode_parse.Engine.State.{
  StreamingExecutionEngine, Streaming, PendingLine, plain, settle, fault_with_diagnostic,
  make_fault_diagnostic,
}
use experimental_gcode_parse.Engine.Advance.{EngineRuntime}
use experimental_gcode_parse.Engine.Pending.{execute_pending_program}
use experimental_gcode_parse.Engine.Advance.{advance_active_executor}
use experimental_gcode_parse.Engine.Control.{
  push_chunk, enqueue_complete_lines, is_closed, cancel_wait, is_blocked, cancel, pump_open,
  pump_in, pump, flush_buffer, close_input, finish, notify_executor, no_more_work, resume_with,
  resume,
}
use experimental_gcode_parse.Engine.Invariant.{
  Agrees, IsOpen, IsValid, IsReported, IsReported?, settle-IsReported,
}
use experimental_gcode_parse.Engine.Invariant.Loop.{
  advance_active_executor-IsReported, execute_pending_program-IsReported,
}

released :
    (o : Option BlockedState) (s : Streaming)
    → s.engine.blocked ≡ o
    → (cancel_wait o s).engine.blocked ≡ none
unfolding cancel_wait
released none s q = q
released (some suspension) s q = refl

unblocked :
    (st : EngineState) (s : Streaming)
    → Agrees st s.engine
    → (if is_blocked st then cancel_wait s.engine.blocked s else s).engine.blocked ≡ none
unfolding is_blocked
unblocked EngineState.accepting_input s v = v
unblocked EngineState.ready_to_execute s v = v
unblocked EngineState.rejected s v = v.0
unblocked EngineState.completed s v = v.0
unblocked EngineState.cancelled s v = v.0
unblocked EngineState.faulted s v = v
unblocked EngineState.blocked s v = released s.engine.blocked s refl

pub cancel-IsReported :
    (s : Streaming) → IsValid s.engine → IsReported (plain StepStatus.cancelled, cancel s)
unfolding cancel
cancel-IsReported s v = record { valid = (unblocked s.engine.state s v, refl); reports = refl }

pump_open-IsReported :
    (fuel : ℕ) (ops : FloatOps) (r : EngineRuntime) (parse : Bytes → LowerOptions → AilResult)
    (cancelled : Bool) (s : Streaming)
    → IsValid s.engine
    → IsOpen s.engine
    → IsReported? (pump_open fuel ops r parse cancelled s)
unfolding pump_open
pump_open-IsReported fuel ops r parse cancelled s w v = by_executor s.engine.active_executor refl
  where
    by_lines :
        s.engine.active_executor ≡ none
        → (lines : List PendingLine) → s.engine.pending_lines ≡ lines
        → IsReported? (elim lines [
          | l ∷ ls ↦ execute_pending_program fuel ops r parse s.engine.pending_lines s
          | [] ↦ some (settle s.engine.input_finished s)
        ])
    by_lines a [] q = settle-IsReported s.engine.input_finished s v.1 (λ h. a)
    by_lines a (l ∷ ls) q =
        execute_pending_program-IsReported fuel ops r parse s.engine.pending_lines s v a

    by_executor :
        (o : Option AilExecutor)
        → s.engine.active_executor ≡ o
        → IsReported? (elim o [
          | some e ↦ advance_active_executor fuel ops r s
          | none ↦
              if cancelled
              then some (plain StepStatus.cancelled, cancel s)
              else elim s.engine.pending_lines [
                | line ∷ lines ↦ execute_pending_program fuel ops r parse s.engine.pending_lines s
                | [] ↦ some (settle s.engine.input_finished s)
              ]
        ])
    by_executor (some e) q = advance_active_executor-IsReported fuel ops r s v
    by_executor none q = by_answer cancelled
      where
        by_answer :
            (b : Bool)
            → IsReported? (
                if b
                then some (plain StepStatus.cancelled, cancel s)
                else elim s.engine.pending_lines [
                  | line ∷ lines ↦ execute_pending_program fuel ops r parse s.engine.pending_lines s
                  | [] ↦ some (settle s.engine.input_finished s)
                ])
        by_answer true = cancel-IsReported s w
        by_answer false = by_lines q s.engine.pending_lines refl

pump_in-IsReported :
    (st : EngineState) (fuel : ℕ) (ops : FloatOps) (r : EngineRuntime)
    (parse : Bytes → LowerOptions → AilResult) (cancelled : Bool) (s : Streaming)
    → s.engine.state ≡ st
    → IsValid s.engine
    → Agrees st s.engine
    → IsReported? (pump_in st fuel ops r parse cancelled s)
unfolding pump_in
pump_in-IsReported EngineState.accepting_input fuel ops r parse cancelled s q w v =
    pump_open-IsReported fuel ops r parse cancelled s w (inl q, v)
pump_in-IsReported EngineState.ready_to_execute fuel ops r parse cancelled s q w v =
    pump_open-IsReported fuel ops r parse cancelled s w (inr q, v)
pump_in-IsReported EngineState.blocked fuel ops r parse cancelled s q w v = record {
  valid = w;
  reports = (q, refl);
}
pump_in-IsReported EngineState.rejected fuel ops r parse cancelled s q w v = record {
  valid = w;
  reports = (q, refl);
}
pump_in-IsReported EngineState.completed fuel ops r parse cancelled s q w v = record {
  valid = w;
  reports = q;
}
pump_in-IsReported EngineState.cancelled fuel ops r parse cancelled s q w v = record {
  valid = w;
  reports = q;
}
pump_in-IsReported EngineState.faulted fuel ops r parse cancelled s q w v = record {
  valid = w;
  reports = q;
}

pub pump-IsReported :
    (fuel : ℕ) (ops : FloatOps) (r : EngineRuntime) (parse : Bytes → LowerOptions → AilResult)
    (cancelled : Bool) (s : Streaming)
    → IsValid s.engine
    → IsReported? (pump fuel ops r parse cancelled s)
unfolding pump
pump-IsReported fuel ops r parse cancelled s v =
    pump_in-IsReported s.engine.state fuel ops r parse cancelled s refl v v

idle : (o : Option AilExecutor) (b c : Bool) → (not (has_value o) && b && c) ≡ true → o ≡ none
idle none b c h = refl
idle (some e) b c h = absurd (ground arith)

resume_with-IsReported : (token : WaitToken) (s : Streaming) → IsReported (resume_with token s)
unfolding resume_with no_more_work
resume_with-IsReported token s =
    let woken : StreamingExecutionEngine = record s.engine {
      active_executor = notify_executor token s.engine.active_executor;
      blocked = none;
      rejected = none;
    } in
    settle-IsReported (no_more_work woken) (record s { engine = woken }) refl
      (idle woken.active_executor (elim woken.pending_lines [ [] ↦ true | l ∷ ls ↦ false ])
        woken.input_finished)

matching-IsReported :
    (b : Bool) (token : WaitToken) (line : ℕ) (s : Streaming)
    → IsReported (
        if b
        then resume_with token s
        else fault_with_diagnostic (make_fault_diagnostic line "resume token does not match") s)
unfolding fault_with_diagnostic
matching-IsReported true token line s = resume_with-IsReported token s
matching-IsReported false token line s = record { valid = refl; reports = refl }

suspension-IsReported :
    (o : Option BlockedState) (token : WaitToken) (s : Streaming)
    → IsReported (elim o [
      | none ↦ fault_with_diagnostic (make_fault_diagnostic 0 "resume called while not blocked") s
      | some suspension ↦
          if suspension.token == token
          then resume_with token s
          else fault_with_diagnostic
              (make_fault_diagnostic suspension.line "resume token does not match")
              s
    ])
unfolding fault_with_diagnostic
suspension-IsReported none token s = record { valid = refl; reports = refl }
suspension-IsReported (some suspension) token s =
    matching-IsReported (suspension.token == token) token suspension.line s

pub resume-IsReported : (token : WaitToken) (s : Streaming) → IsReported (resume token s)
unfolding resume
resume-IsReported token s =
    suspension-IsReported (if is_blocked s.engine.state then s.engine.blocked else none) token s

-- Calls that add lines touch none of the members that the invariant speaks of.
same-Agrees :
    (st : EngineState) (e f : StreamingExecutionEngine)
    → f.blocked ≡ e.blocked
    → f.rejected ≡ e.rejected
    → f.active_executor ≡ e.active_executor
    → Agrees st e
    → Agrees st f
same-Agrees EngineState.accepting_input e f b r a v = b ∙ v
same-Agrees EngineState.ready_to_execute e f b r a v = b ∙ v
same-Agrees EngineState.blocked e f b r a v = rw b v
same-Agrees EngineState.rejected e f b r a (v, w) = (b ∙ v, rw r w)
same-Agrees EngineState.completed e f b r a (v, w) = (b ∙ v, a ∙ w)
same-Agrees EngineState.cancelled e f b r a (v, w) = (b ∙ v, a ∙ w)
same-Agrees EngineState.faulted e f b r a v = b ∙ v

pub push_chunk-IsValid :
    (chunk : Bytes) (e : StreamingExecutionEngine) → IsValid e → IsValid (push_chunk chunk e).0
unfolding push_chunk enqueue_complete_lines
push_chunk-IsValid chunk e v =
    if_either {A = StreamingExecutionEngine × Bool} (λ r. IsValid r.0) (is_closed e.state) v
      (same-Agrees e.state e _ refl refl refl v)

flush-IsValid :
    (bytes : Bytes) (e : StreamingExecutionEngine) → IsValid e → IsValid (flush_buffer bytes e)
unfolding flush_buffer
flush-IsValid [] e v = v
flush-IsValid (c ∷ cs) e v = same-Agrees e.state e (flush_buffer (c ∷ cs) e) refl refl refl v

pub finish-IsReported :
    (fuel : ℕ) (ops : FloatOps) (r : EngineRuntime) (parse : Bytes → LowerOptions → AilResult)
    (cancelled : Bool) (s : Streaming)
    → IsValid s.engine
    → IsReported? (finish fuel ops r parse cancelled s)
unfolding finish close_input
finish-IsReported fuel ops r parse cancelled s v =
    pump-IsReported fuel ops r parse cancelled (record s { engine = close_input s.engine })
      (flush-IsValid s.engine.input_buffer (record s.engine { input_finished = true })
        (same-Agrees s.engine.state s.engine (record s.engine { input_finished = true }) refl refl
          refl v))
