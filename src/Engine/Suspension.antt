-- ===== src/Engine/Suspension.antt =====
-- src/streaming_execution_engine.cpp: a call that ends blocked leaves the modal state that the engine
-- exports as it was, whatever the executor has changed so far.
use mathlib.Core.Path.{subst}
use experimental_gcode_parse.Prelude.{
  ℕ, zero, suc, pos, ◌≡◌, refl, sym, Bool, true, false, List, [], ◌∷◌, Bytes, Option, none, some,
  Bool-cases, Option-cases, inl, inr, arith,
}
use experimental_gcode_parse.Floats.{FloatOps}
use experimental_gcode_parse.Ast.{Diagnostic}
use experimental_gcode_parse.Lowering.{LowerOptions, RejectedLine}
use experimental_gcode_parse.Ail.{AilInstruction, AilResult}
use experimental_gcode_parse.Runtime.{EngineState, StepStatus, StepResult, WaitToken}
use experimental_gcode_parse.Executor.State.{AilExecutor, AilExecutorInitialState, ExecutorStatus}
use experimental_gcode_parse.Executor.Step.{step}
use experimental_gcode_parse.Engine.State.{
  Streaming, PendingLine, plain, settle, export_initial_state, make_blocked_result,
  make_rejected_result, emit_diagnostics, fault_with_diagnostic,
}
use experimental_gcode_parse.Engine.Advance.{
  EngineRuntime, Round, returns, goes_on, waiting_token, emit_new_diagnostics, on_fault,
  wait_for_more_input, fault_with_executor, on_completed, reject_deferred, end_round, after_step,
  round, advance_active_executor, host_of,
}
use experimental_gcode_parse.Engine.Termination.{next_round}
use experimental_gcode_parse.Engine.Pending.{
  execute_pending_program, execute_lowered, finish_without_instructions, defer_rejected,
  start_executor, waits_for_endif, lower_pending,
}
use experimental_gcode_parse.Engine.Control.{pump, pump_in, pump_open}

-- If the call ends blocked, the exported modal state is the one given.
abbrev pub KeepsModes : AilExecutorInitialState → StepResult × Streaming → Type 0
KeepsModes modes out = out.0.status ≡ StepStatus.blocked → export_initial_state out.1.engine ≡ modes

abbrev pub KeepsModes? : AilExecutorInitialState → Option (StepResult × Streaming) → Type 0
KeepsModes? modes none = Unit
KeepsModes? modes (some out) = KeepsModes modes out

abbrev RoundKeepsModes : AilExecutorInitialState → Round → Type 0
RoundKeepsModes modes (returns out) = KeepsModes modes out
RoundKeepsModes modes (goes_on t) = export_initial_state t.engine ≡ modes

emitted-modes :
    (e : AilExecutor) (s : Streaming)
    → export_initial_state (emit_new_diagnostics e s).engine ≡ export_initial_state s.engine
unfolding emit_new_diagnostics export_initial_state
emitted-modes e s = ground arith

on_fault-status :
    (e : AilExecutor) (s : Streaming) → (on_fault e s).0.status ≡ StepStatus.blocked → ⊥
unfolding on_fault wait_for_more_input fault_with_executor fault_with_diagnostic
on_fault-status e s h = ground (arith, h)

on_completed-status :
    (e : AilExecutor) (s : Streaming) → (on_completed e s).0.status ≡ StepStatus.blocked → ⊥
unfolding on_completed reject_deferred settle make_rejected_result
on_completed-status e s h = ground (arith, h)

end_round-KeepsModes :
    (progressed : Bool) (e : AilExecutor) (s : Streaming)
    → RoundKeepsModes
        (export_initial_state s.engine)
        (end_round progressed (emit_new_diagnostics e s))
unfolding end_round
end_round-KeepsModes true e s = emitted-modes e s
end_round-KeepsModes false e s = λ h. emitted-modes e s

after_step-KeepsModes :
    (e : AilExecutor) (progressed : Bool) (s : Streaming) (o : Option WaitToken)
    (status : ExecutorStatus)
    → waiting_token e ≡ o
    → e.state.status ≡ status
    → RoundKeepsModes (export_initial_state s.engine) (after_step e progressed s)
unfolding after_step make_blocked_result export_initial_state
after_step-KeepsModes e p s (some token) status w q = rw (after_step, w) (λ h. emitted-modes e s)
after_step-KeepsModes e p s none ExecutorStatus.fault w q =
    simp (after_step, w, q) (λ h. absurd (on_fault-status e s h))
after_step-KeepsModes e p s none ExecutorStatus.completed w q =
    simp (after_step, w, q) (λ h. absurd (on_completed-status e s h))
after_step-KeepsModes e p s none ExecutorStatus.ready w q =
    simp (after_step, w, q) (end_round-KeepsModes p e s)
after_step-KeepsModes e p s none ExecutorStatus.blocked w q =
    simp (after_step, w, q) (end_round-KeepsModes p e s)

round-KeepsModes :
    (ops : FloatOps) (r : EngineRuntime) (e : AilExecutor) (s : Streaming)
    → RoundKeepsModes (export_initial_state s.engine) (round ops r e s)
unfolding round export_initial_state
round-KeepsModes ops r e s =
    let (m, progressed) = step ops (pos 0) (host_of r) (record { executor = e; trace = s.trace }) in
    after_step-KeepsModes m.executor progressed
      (record { engine = record s.engine { active_executor = some m.executor }; trace = m.trace })
      (waiting_token m.executor) m.executor.state.status refl refl

-- The rest of the loop, by what its first round leaves.
loop-KeepsModes :
    (fuel : ℕ) (ops : FloatOps) (r : EngineRuntime) (modes : AilExecutorInitialState) (x : Round)
    → RoundKeepsModes modes x
    → ((t : Streaming)
        → KeepsModes? (export_initial_state t.engine) (advance_active_executor fuel ops r t))
    → KeepsModes? modes (elim x [
      | returns result ↦ some result
      | goes_on after ↦ advance_active_executor fuel ops r after
    ])
loop-KeepsModes fuel ops r modes (returns result) k go = k
loop-KeepsModes fuel ops r modes (goes_on t) k go =
    subst (λ m. KeepsModes? m (advance_active_executor fuel ops r t)) k (go t)

advance-idle :
    (fuel : ℕ) (ops : FloatOps) (r : EngineRuntime) (s : Streaming)
    → s.engine.active_executor ≡ none
    → advance_active_executor (suc fuel) ops r s ≡ some (plain StepStatus.progress, s)
unfolding advance_active_executor
advance-idle fuel ops r s a = simp (advance_active_executor, a)

advance-KeepsModes :
    (fuel : ℕ) (ops : FloatOps) (r : EngineRuntime) (s : Streaming)
    → KeepsModes? (export_initial_state s.engine) (advance_active_executor fuel ops r s)
advance-KeepsModes zero ops r s = unfold advance_active_executor in tt
advance-KeepsModes (suc fuel) ops r s = elim (Option-cases s.engine.active_executor) [
  | inl a ↦
      subst (KeepsModes? (export_initial_state s.engine)) (sym (advance-idle fuel ops r s a))
        (λ h. refl)
  | inr (x, a) ↦
      subst (KeepsModes? (export_initial_state s.engine))
        (sym (next_round fuel ops r s x (round ops r x s) a refl))
        (loop-KeepsModes fuel ops r (export_initial_state s.engine) (round ops r x s)
          (round-KeepsModes ops r x s) (advance-KeepsModes fuel ops r))
]

finish-status :
    (rejected : List RejectedLine) (s : Streaming)
    → (finish_without_instructions rejected s).0.status ≡ StepStatus.blocked
    → ⊥
unfolding finish_without_instructions settle make_rejected_result
finish-status [] s h = ground (arith, h)
finish-status (rejected ∷ others) s h = ground (arith, h)

-- A program that starts, starts from the modes of the engine.
started-modes :
    (insts : List AilInstruction) (line : ℕ) (rejected : List RejectedLine)
    (diagnostics : List Diagnostic) (s : Streaming)
    → export_initial_state
        (start_executor insts line (defer_rejected rejected diagnostics s).engine)
      ≡ export_initial_state s.engine
unfolding export_initial_state start_executor defer_rejected
started-modes insts line [] diagnostics s = refl
started-modes insts line (r ∷ rejected) diagnostics s = refl

instructions-KeepsModes :
    (fuel : ℕ) (ops : FloatOps) (r : EngineRuntime) (line : ℕ) (lowered : AilResult) (s : Streaming)
    (insts : List AilInstruction)
    → KeepsModes? (export_initial_state s.engine) (elim insts [
      | [] ↦ some (
          finish_without_instructions lowered.rejected_lines
            (record s { trace = emit_diagnostics lowered.diagnostics s.trace }))
      | inst ∷ rest ↦
          advance_active_executor fuel ops r
            (record (defer_rejected lowered.rejected_lines lowered.diagnostics s) {
              engine =
                  start_executor
                    (inst ∷ rest)
                    line
                    (defer_rejected lowered.rejected_lines lowered.diagnostics s).engine;
            })
    ])
instructions-KeepsModes fuel ops r line lowered s [] =
    λ h. absurd (finish-status lowered.rejected_lines _ h)
instructions-KeepsModes fuel ops r line lowered s (inst ∷ rest) =
    let deferred = defer_rejected lowered.rejected_lines lowered.diagnostics s in
    let started : Streaming = record deferred {
      engine = start_executor (inst ∷ rest) line deferred.engine;
    } in
    subst (λ m. KeepsModes? m (advance_active_executor fuel ops r started))
      (started-modes (inst ∷ rest) line lowered.rejected_lines lowered.diagnostics s)
      (advance-KeepsModes fuel ops r started)

execute_lowered-KeepsModes :
    (fuel : ℕ) (ops : FloatOps) (r : EngineRuntime) (line : ℕ) (lowered : AilResult) (s : Streaming)
    → KeepsModes? (export_initial_state s.engine) (execute_lowered fuel ops r line lowered s)
unfolding execute_lowered
execute_lowered-KeepsModes fuel ops r line lowered s =
    elim (Bool-cases (waits_for_endif lowered.rejected_lines s.engine.input_finished)) [
      | inl q ↦ rw (execute_lowered, q) (λ h. absurd (ground (arith, h)))
      | inr q ↦
          rw (execute_lowered, q)
            (instructions-KeepsModes fuel ops r line lowered s lowered.instructions)
    ]

execute_pending-KeepsModes :
    (fuel : ℕ) (ops : FloatOps) (r : EngineRuntime) (parse : Bytes → LowerOptions → AilResult)
    (lines : List PendingLine) (s : Streaming)
    → KeepsModes? (export_initial_state s.engine) (execute_pending_program fuel ops r parse lines s)
unfolding execute_pending_program
execute_pending-KeepsModes fuel ops r parse [] s = λ h. refl
execute_pending-KeepsModes fuel ops r parse (first ∷ others) s =
    execute_lowered-KeepsModes fuel ops r first.line
      (lower_pending parse first others s.engine.options) s

settle-status :
    (finished : Bool) (s : Streaming) → (settle finished s).0.status ≡ StepStatus.blocked → ⊥
unfolding settle
settle-status true s h = ground (arith, h)
settle-status false s h = ground (arith, h)

pending-KeepsModes :
    (fuel : ℕ) (ops : FloatOps) (r : EngineRuntime) (parse : Bytes → LowerOptions → AilResult)
    (lines given : List PendingLine) (s : Streaming)
    → KeepsModes? (export_initial_state s.engine) (elim given [
      | line ∷ rest ↦ execute_pending_program fuel ops r parse lines s
      | [] ↦ some (settle s.engine.input_finished s)
    ])
pending-KeepsModes fuel ops r parse lines [] s =
    λ h. absurd (settle-status s.engine.input_finished s h)
pending-KeepsModes fuel ops r parse lines (line ∷ rest) s =
    execute_pending-KeepsModes fuel ops r parse lines s

pump_open-KeepsModes :
    (fuel : ℕ) (ops : FloatOps) (r : EngineRuntime) (parse : Bytes → LowerOptions → AilResult)
    (cancelled : Bool) (s : Streaming)
    → KeepsModes? (export_initial_state s.engine) (pump_open fuel ops r parse cancelled s)
unfolding pump_open
pump_open-KeepsModes fuel ops r parse cancelled s = elim (Option-cases s.engine.active_executor) [
  | inr (x, a) ↦ simp (pump_open, a) (advance-KeepsModes fuel ops r s)
  | inl a ↦ by_cancelled cancelled a
]
  where
    by_cancelled :
        (c : Bool)
        → s.engine.active_executor ≡ none
        → KeepsModes? (export_initial_state s.engine) (pump_open fuel ops r parse c s)
    by_cancelled true a = simp (pump_open, a) (λ h. absurd (ground (arith, h)))
    by_cancelled false a =
        simp (pump_open, a)
          (pending-KeepsModes fuel ops r parse s.engine.pending_lines s.engine.pending_lines s)

-- A pump that ends blocked leaves the modal state that the engine exports: what the executor has
-- changed so far stays in the executor.
pub pump-KeepsModes :
    (fuel : ℕ) (ops : FloatOps) (r : EngineRuntime) (parse : Bytes → LowerOptions → AilResult)
    (cancelled : Bool) (s : Streaming)
    → KeepsModes? (export_initial_state s.engine) (pump fuel ops r parse cancelled s)
unfolding pump pump_in
pump-KeepsModes fuel ops r parse cancelled s = by_state s.engine.state
  where
    by_state :
        (st : EngineState)
        → KeepsModes? (export_initial_state s.engine) (pump_in st fuel ops r parse cancelled s)
    by_state EngineState.accepting_input = pump_open-KeepsModes fuel ops r parse cancelled s
    by_state EngineState.ready_to_execute = pump_open-KeepsModes fuel ops r parse cancelled s
    by_state EngineState.blocked = λ h. refl
    by_state EngineState.rejected = λ h. refl
    by_state EngineState.completed = λ h. refl
    by_state EngineState.cancelled = λ h. refl
    by_state EngineState.faulted = λ h. refl
