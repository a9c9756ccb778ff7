-- ===== src/Session/Suspension.antt =====
-- src/execution_session.cpp: a pump that ends blocked keeps the modal state from which the session
-- started the program.
use mathlib.Core.Path.{subst}
use experimental_gcode_parse.Prelude.{
  Bytes, Bool, true, false, ◌≡◌, refl, ap, sym, ◌∙◌, List, [], ◌∷◌, Option, none, some, arith,
  if◌then◌else◌,
}
use experimental_gcode_parse.Runtime.{EngineState, StepStatus, StepResult}
use experimental_gcode_parse.Host.{Trace}
use experimental_gcode_parse.Executor.State.{AilExecutorInitialState}
use experimental_gcode_parse.Engine.State.{Streaming, export_initial_state}
use experimental_gcode_parse.Engine.Suspension.{KeepsModes?, pump-KeepsModes}
use experimental_gcode_parse.Session.State.{
  ExecutionSession, SessionRun, sync_engine_with_editable_suffix,
}
use experimental_gcode_parse.Session.Control.{
  Environment, streaming_of, after_engine?, after_engine, run_engine_step, engine_pump,
  engine_finish, pump_lines, pump_synced, pump_after_sync, pump_open, pump_in, pump,
}

-- If the call ends blocked, the engine of the session exports the given modal state.
abbrev pub StaysIn : AilExecutorInitialState → Option (StepResult × SessionRun) → Type 0
StaysIn modes none = Unit
StaysIn modes (some (result, r)) =
    result.status ≡ StepStatus.blocked → export_initial_state r.session.engine ≡ modes

run_blocked :
    (result : StepResult) (s : ExecutionSession) (status : StepStatus)
    → result.status ≡ status
    → status ≡ StepStatus.blocked
    → (run_engine_step result s).engine ≡ s.engine
unfolding run_engine_step
run_blocked result s status q b = simp (run_engine_step, q, b)

after_engine-StaysIn :
    (modes : AilExecutorInitialState) (o : Option (StepResult × Streaming)) (r : SessionRun)
    → KeepsModes? modes o
    → StaysIn modes (after_engine? o r)
unfolding after_engine? after_engine
after_engine-StaysIn modes none r k = tt
after_engine-StaysIn modes (some (result, t)) r k = λ h.
    ap export_initial_state
      (run_blocked result (record r.session { engine = t.engine }) result.status refl h)
    ∙ k h

engine_pump-StaysIn :
    (env : Environment) (r : SessionRun)
    → StaysIn (export_initial_state r.session.engine) (engine_pump env r)
unfolding engine_pump
engine_pump-StaysIn env r = after_engine-StaysIn (export_initial_state r.session.engine) _ r (
    pump-KeepsModes env.fuel env.ops env.runtime env.parse_and_lower_ail env.cancelled
      (streaming_of r))

pump_lines-StaysIn :
    (lines : List Bytes) (env : Environment) (r : SessionRun)
    → StaysIn (export_initial_state r.session.engine) (pump_lines lines env r)
unfolding pump_lines
pump_lines-StaysIn [] env r = λ h. absurd (ground (arith, h))
pump_lines-StaysIn (line ∷ lines) env r = engine_pump-StaysIn env r

pump_synced-StaysIn :
    (env : Environment) (r : SessionRun)
    → r.session.input_finished ≡ false
    → StaysIn (export_initial_state r.session.engine) (pump_synced env r)
unfolding pump_synced
pump_synced-StaysIn env r f =
    subst
      (λ b.
        StaysIn (export_initial_state r.session.engine)
          (if b then engine_finish env r else pump_lines r.session.editable_lines env r))
      (sym f) (pump_lines-StaysIn r.session.editable_lines env r)

-- The modal state behind the locked lines, as an engine takes it over.
abbrev pub behind_prefix : ExecutionSession → AilExecutorInitialState
behind_prefix s = record s.prefix_state { selected_tool_selection = none }

synced-modes :
    (s : ExecutionSession)
    → (export_initial_state (sync_engine_with_editable_suffix s).0.engine ≡ behind_prefix s)
      × ((sync_engine_with_editable_suffix s).0.input_finished ≡ s.input_finished)
unfolding sync_engine_with_editable_suffix export_initial_state
synced-modes s = (ground arith, ground arith)

after_sync-StaysIn :
    (env : Environment) (x : ExecutionSession × Bool) (trace : Trace)
    → x.0.input_finished ≡ false
    → StaysIn (export_initial_state x.0.engine) (pump_after_sync env x trace)
unfolding pump_after_sync
after_sync-StaysIn env (s, true) trace f =
    pump_synced-StaysIn env (record { session = s; trace = trace }) f
after_sync-StaysIn env (s, false) trace f = λ h. absurd (ground (arith, h))

-- The states in which pump brings the engine in step with the editable lines.
abbrev pub Runs : EngineState → Type 0
Runs EngineState.accepting_input = Unit
Runs EngineState.ready_to_execute = Unit
Runs EngineState.completed = Unit
Runs _ = ⊥

pump_open-StaysIn :
    (env : Environment) (r : SessionRun)
    → r.session.engine_dirty ≡ true
    → r.session.input_finished ≡ false
    → StaysIn (behind_prefix r.session) (pump_open env r)
unfolding pump_open
pump_open-StaysIn env r d f =
    let (m, same) = synced-modes r.session in
    rw (d) (
      subst
        (λ x. StaysIn x (pump_after_sync env (sync_engine_with_editable_suffix r.session) r.trace))
        m (after_sync-StaysIn env (sync_engine_with_editable_suffix r.session) r.trace (same ∙ f)))

-- A pump that starts the program of new editable lines, and ends blocked, leaves an engine that
-- exports the modal state behind the locked lines.
pub pump-StaysIn :
    (env : Environment) (r : SessionRun)
    → Runs r.session.state
    → r.session.engine_dirty ≡ true
    → r.session.input_finished ≡ false
    → StaysIn (behind_prefix r.session) (pump env r)
unfolding pump pump_in
pump-StaysIn env r runs d f = by_state r.session.state runs
  where
    by_state : (st : EngineState) → Runs st → StaysIn (behind_prefix r.session) (pump_in st env r)
    by_state EngineState.accepting_input h = pump_open-StaysIn env r d f
    by_state EngineState.ready_to_execute h = pump_open-StaysIn env r d f
    by_state EngineState.completed h = pump_open-StaysIn env r d f
    by_state EngineState.blocked h = absurd h
    by_state EngineState.rejected h = absurd h
    by_state EngineState.cancelled h = absurd h
    by_state EngineState.faulted h = absurd h
