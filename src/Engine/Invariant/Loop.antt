-- ===== src/Engine/Invariant/Loop.antt =====
-- src/streaming_execution_engine.cpp: advanceActiveExecutor and executePendingProgram keep the
-- engine valid and report its state.
use experimental_gcode_parse.Prelude.{
  ℕ, zero, suc, pos, ◌≡◌, inl, inr, refl, Bool, true, false, List, [], ◌∷◌, Bytes, Option, none,
  some, Bool-cases,
}
use experimental_gcode_parse.Floats.{FloatOps}
use experimental_gcode_parse.Lowering.{LowerOptions, RejectedLine}
use experimental_gcode_parse.Ast.{Diagnostic}
use experimental_gcode_parse.Ail.{AilResult, AilInstruction}
use experimental_gcode_parse.Runtime.{WaitToken, StepStatus, StepResult}
use experimental_gcode_parse.Executor.State.{AilExecutor, ExecutorStatus, Machine}
use experimental_gcode_parse.Executor.Step.{step}
use experimental_gcode_parse.Engine.State.{
  Streaming, PendingLine, plain, make_rejected_result, make_blocked_result, emit_diagnostics,
}
use experimental_gcode_parse.Engine.Advance.{
  EngineRuntime, host_of, Round, returns, goes_on, waiting_token, end_round, after_step, round,
  advance_active_executor, emit_new_diagnostics, on_fault, on_completed,
}
use experimental_gcode_parse.Engine.Pending.{
  finish_without_instructions, defer_rejected, start_executor, waits_for_endif, lower_pending,
  execute_lowered, execute_pending_program,
}
use experimental_gcode_parse.Engine.Invariant.{
  IsOpen, IsReported, IsReported?, IsOpen-IsValid, make_blocked_result-IsReported,
  settle-IsReported, emit_new_diagnostics-IsOpen, on_fault-IsReported, on_completed-IsReported,
}

-- A round that ends the call has reported; one that goes on leaves the engine at work.
abbrev pub IsRound : Round → Type 0
IsRound (returns out) = IsReported out
IsRound (goes_on s) = IsOpen s.engine

end_round-IsRound : (b : Bool) (s : Streaming) → IsOpen s.engine → IsRound (end_round b s)
unfolding end_round
end_round-IsRound true s v = v
end_round-IsRound false s v = record { valid = IsOpen-IsValid s.engine v; reports = v.0 }

after_step-IsRound :
    (e : AilExecutor) (progressed : Bool) (s : Streaming)
    → IsOpen s.engine
    → IsRound (after_step e progressed s)
unfolding after_step
after_step-IsRound e progressed s v = by_token (waiting_token e) e.state.status
  where
    by_token :
        (o : Option WaitToken) (status : ExecutorStatus)
        → IsRound (elim o [
          | some token ↦ returns (
              make_blocked_result s.engine.active_executor_line token
                "instruction execution in progress"
                (emit_new_diagnostics e s))
          | none ↦ elim status [
            | ExecutorStatus.fault ↦ returns (on_fault e s)
            | ExecutorStatus.completed ↦ returns (on_completed e s)
            | _ ↦ end_round progressed (emit_new_diagnostics e s)
          ]
        ])
    by_token (some token) status =
        make_blocked_result-IsReported s.engine.active_executor_line token
          "instruction execution in progress" (emit_new_diagnostics e s)
    by_token none ExecutorStatus.fault = on_fault-IsReported e s v
    by_token none ExecutorStatus.completed = on_completed-IsReported e s v
    by_token none ExecutorStatus.ready =
        end_round-IsRound progressed (emit_new_diagnostics e s) (emit_new_diagnostics-IsOpen e s v)
    by_token none ExecutorStatus.blocked =
        end_round-IsRound progressed (emit_new_diagnostics e s) (emit_new_diagnostics-IsOpen e s v)

round-IsRound :
    (ops : FloatOps) (r : EngineRuntime) (e : AilExecutor) (s : Streaming)
    → IsOpen s.engine
    → IsRound (round ops r e s)
unfolding round
round-IsRound ops r e s v =
    let out : Machine × Bool =
      step ops (pos 0) (host_of r) (record { executor = e; trace = s.trace }) in
    after_step-IsRound out.0.executor out.1
      (record {
        engine = record s.engine { active_executor = some out.0.executor };
        trace = out.0.trace;
      })
      v

-- The loop by its first round, given what holds of the rest.
loop-IsReported :
    (next : Streaming → Option (StepResult × Streaming))
    → ((s : Streaming) → IsOpen s.engine → IsReported? (next s))
    → (x : Round) → IsRound x
    → IsReported? (elim x [ returns result ↦ some result | goes_on after ↦ next after ])
loop-IsReported next rest (returns out) h = h
loop-IsReported next rest (goes_on after) h = rest after h

executor-IsReported :
    (next : Streaming → Option (StepResult × Streaming))
    → ((s : Streaming) → IsOpen s.engine → IsReported? (next s))
    → (ops : FloatOps) (r : EngineRuntime) (s : Streaming) → IsOpen s.engine
    → (o : Option AilExecutor)
    → IsReported? (elim o [
      | none ↦ some (plain StepStatus.progress, s)
      | some e ↦ elim (round ops r e s) [
        | returns result ↦ some result
        | goes_on after ↦ next after
      ]
    ])
executor-IsReported next rest ops r s v none = record {
  valid = IsOpen-IsValid s.engine v;
  reports = v.0;
}
executor-IsReported next rest ops r s v (some e) =
    loop-IsReported next rest (round ops r e s) (round-IsRound ops r e s v)

pub advance_active_executor-IsReported :
    (fuel : ℕ) (ops : FloatOps) (r : EngineRuntime) (s : Streaming)
    → IsOpen s.engine
    → IsReported? (advance_active_executor fuel ops r s)
unfolding advance_active_executor
advance_active_executor-IsReported zero ops r s v = tt
advance_active_executor-IsReported (suc fuel) ops r s v =
    executor-IsReported (advance_active_executor fuel ops r)
      (advance_active_executor-IsReported fuel ops r) ops r s v s.engine.active_executor

finish_without-IsReported :
    (lines : List RejectedLine) (s : Streaming)
    → s.engine.blocked ≡ none
    → s.engine.active_executor ≡ none
    → IsReported (finish_without_instructions lines s)
unfolding finish_without_instructions make_rejected_result
finish_without-IsReported [] s n a =
    settle-IsReported s.engine.input_finished
      (record s { engine = record s.engine { pending_lines = [] } }) n (λ h. a)
finish_without-IsReported (rejected ∷ others) s n a = record {
  valid = (refl, tt);
  reports = (refl, refl);
}

start-IsOpen :
    (lines : List RejectedLine) (diagnostics : List Diagnostic) (insts : List AilInstruction)
    (line : ℕ) (s : Streaming)
    → IsOpen s.engine
    → IsOpen (start_executor insts line (defer_rejected lines diagnostics s).engine)
unfolding start_executor defer_rejected
start-IsOpen [] diagnostics insts line s v = v
start-IsOpen (rejected ∷ others) diagnostics insts line s v = v

execute_lowered-IsReported :
    (fuel : ℕ) (ops : FloatOps) (r : EngineRuntime) (line : ℕ) (lowered : AilResult) (s : Streaming)
    → IsOpen s.engine
    → s.engine.active_executor ≡ none
    → IsReported? (execute_lowered fuel ops r line lowered s)
unfolding execute_lowered
execute_lowered-IsReported fuel ops r line lowered s v a =
    elim (Bool-cases (waits_for_endif lowered.rejected_lines s.engine.input_finished)) [
      | inl q ↦ rw (execute_lowered, q) (record { valid = v.1; reports = inr refl })
      | inr q ↦ rw (execute_lowered, q) (by_instructions lowered.instructions)
    ]
  where
    by_instructions :
        (insts : List AilInstruction)
        → IsReported? (elim insts [
          | [] ↦ some (
              finish_without_instructions lowered.rejected_lines
                (record s { trace = emit_diagnostics lowered.diagnostics s.trace }))
          | inst ∷ rest ↦
              advance_active_executor fuel ops r
                (record (defer_rejected lowered.rejected_lines lowered.diagnostics s) {
                  engine =
                      start_executor
                        (inst ∷ rest)
                        line
                        (defer_rejected lowered.rejected_lines lowered.diagnostics s).engine;
                })
        ])
    by_instructions [] =
        finish_without-IsReported lowered.rejected_lines
          (record s { trace = emit_diagnostics lowered.diagnostics s.trace }) v.1 a
    by_instructions (inst ∷ rest) =
        advance_active_executor-IsReported fuel ops r
          (record (defer_rejected lowered.rejected_lines lowered.diagnostics s) {
            engine =
                start_executor (inst ∷ rest) line
                  (defer_rejected lowered.rejected_lines lowered.diagnostics s).engine;
          })
          (start-IsOpen lowered.rejected_lines lowered.diagnostics (inst ∷ rest) line s v)

pub execute_pending_program-IsReported :
    (fuel : ℕ) (ops : FloatOps) (r : EngineRuntime) (parse : Bytes → LowerOptions → AilResult)
    (lines : List PendingLine) (s : Streaming)
    → IsOpen s.engine
    → s.engine.active_executor ≡ none
    → IsReported? (execute_pending_program fuel ops r parse lines s)
unfolding execute_pending_program
execute_pending_program-IsReported fuel ops r parse [] s v a = record {
  valid = IsOpen-IsValid s.engine v;
  reports = v.0;
}
execute_pending_program-IsReported fuel ops r parse (first ∷ others) s v a =
    execute_lowered-IsReported fuel ops r first.line
      (lower_pending parse first others s.engine.options) s v a
