-- ===== src/Session/Resumption.antt =====
-- src/execution_session.cpp: what a resume does to the lines in flight, and what becomes of the
-- instructions that are still to run.
use mathlib.Core.Path.{subst}
use experimental_gcode_parse.Prelude.{
  ℕ, ◌<◌, Bytes, Bool, true, false, ◌&&◌, not, ◌≡◌, refl, ap, List, [], ◌∷◌, ◌++◌, length,
  take-length, drop-length, none, some, arith, ◌==◌, nat_eq,
}
use experimental_gcode_parse.Runtime.{
  WaitToken, token_eq, BlockedState, EngineState, StepStatus, StepResult,
}
use experimental_gcode_parse.Executor.State.{AilExecutor}
use experimental_gcode_parse.Executor.Step.{notify_event}
use experimental_gcode_parse.Engine.State.{StreamingExecutionEngine, plain, export_initial_state}
use experimental_gcode_parse.Engine.Lines.{complete_lines}
use experimental_gcode_parse.Engine.Control.{is_closed}
use experimental_gcode_parse.Engine.Resuming.{resume_executor}
use experimental_gcode_parse.Session.State.{
  ExecutionSession, SessionRun, commit_accepted_editable_prefix, sync_engine_with_editable_suffix,
}
use experimental_gcode_parse.Session.Suspension.{StaysIn, behind_prefix, Runs, pump-StaysIn}
use experimental_gcode_parse.Session.Control.{
  Environment, streaming_of, pump, resume, push_chunk, pump_after_sync, commit_in_flight,
  is_settled, run_engine_step, after_engine,
}

-- A session in the middle of a program: blocked, with an executor that has more to do, more input to
-- come, and every editable line in flight.
pub record IsMidway (s : ExecutionSession) (suspension : BlockedState) (e : AilExecutor)
    : Type 0 where
  pub session_blocked : s.state ≡ EngineState.blocked
  pub engine_blocked : s.engine.state ≡ EngineState.blocked
  pub executor : s.engine.active_executor ≡ some e
  pub waits : s.engine.blocked ≡ some suspension
  pub open_ : s.input_finished ≡ false
  pub in_flight : s.in_flight_line_count ≡ length s.editable_lines
  pub some_lines : 0 < length s.editable_lines

abbrev resumed_engine :
    WaitToken → AilExecutor → StreamingExecutionEngine → StreamingExecutionEngine
resumed_engine token e engine = record engine {
  active_executor = some (notify_event token e);
  blocked = none;
  rejected = none;
  state = EngineState.ready_to_execute;
}

-- Every editable line locked, with the modal state of the engine.
abbrev all_locked : ExecutionSession → ExecutionSession
all_locked s = record s {
  locked_prefix_lines = s.locked_prefix_lines ++ s.editable_lines;
  editable_lines = [];
  prefix_state = export_initial_state s.engine;
  in_flight_line_count = 0;
  engine_dirty = false;
}

commit_all :
    (n : ℕ) (s : ExecutionSession)
    → n ≡ length s.editable_lines
    → s.in_flight_line_count ≡ n
    → commit_accepted_editable_prefix n s ≡ all_locked s
unfolding commit_accepted_editable_prefix
commit_all n s h k = ground (arith, take-length s.editable_lines, drop-length s.editable_lines)

in_flight_test : (n m : ℕ) (b : Bool) → n ≡ m → 0 < m → b ≡ true → (not (n == 0) && b) ≡ true
in_flight_test n m b h l q = ground arith

commit_in_flight_all :
    (s : ExecutionSession)
    → s.in_flight_line_count ≡ length s.editable_lines
    → 0 < length s.editable_lines
    → is_settled s.engine.state ≡ true
    → commit_in_flight s ≡ all_locked s
unfolding commit_in_flight
commit_in_flight_all s h l q =
    rw
      (in_flight_test s.in_flight_line_count (length s.editable_lines) (is_settled s.engine.state) h
        l q)
      (commit_all s.in_flight_line_count s h refl)

-- The session that a resume in the middle of a program leaves.
abbrev pub resumed : ExecutionSession → WaitToken → AilExecutor → ExecutionSession
resumed s token e = record s {
  engine = resumed_engine token e s.engine;
  locked_prefix_lines = s.locked_prefix_lines ++ s.editable_lines;
  editable_lines = [];
  prefix_state = export_initial_state s.engine;
  in_flight_line_count = 0;
  engine_dirty = false;
  state = EngineState.ready_to_execute;
}

progress_settles :
    (s : ExecutionSession)
    → s.in_flight_line_count ≡ length s.editable_lines
    → 0 < length s.editable_lines
    → s.engine.state ≡ EngineState.ready_to_execute
    → run_engine_step (plain StepStatus.progress) s
      ≡ record (all_locked s) { state = s.engine.state }
unfolding run_engine_step is_settled
progress_settles s h l q =
    ap (λ (t : ExecutionSession). record t { state = t.engine.state })
      (commit_in_flight_all s h l (ap is_settled q))

-- What a resume in the middle of a program leaves.
resume-midway :
    (suspension : BlockedState) (e : AilExecutor) (r : SessionRun)
    → IsMidway r.session suspension e
    → resume suspension.token r
      ≡ (plain StepStatus.progress, record r { session = resumed r.session suspension.token e })
unfolding resume after_engine export_initial_state
resume-midway suspension e r v =
    rw (resume_executor suspension e (streaming_of r) v.engine_blocked v.waits v.executor) (
      rw (
        progress_settles
          (record r.session { engine = resumed_engine suspension.token e r.session.engine })
          v.in_flight v.some_lines refl))

-- A pump starts the program of new editable lines, more input is to come, and the pump ends blocked
-- in the middle of the program. Resuming the session then locks every line in flight at once,
-- although the executor still holds instructions of them, and stores as the modal state behind these
-- lines the one from before the pump, as the engine took it over: without the selected tool, and
-- with nothing that the executor has changed so far.
pub resume-resumed :
    (env : Environment) (r0 r : SessionRun) (result : StepResult) (suspension : BlockedState)
    (e : AilExecutor)
    → Runs r0.session.state
    → r0.session.engine_dirty ≡ true
    → r0.session.input_finished ≡ false
    → pump env r0 ≡ some (result, r)
    → result.status ≡ StepStatus.blocked
    → IsMidway r.session suspension e
    → (resume suspension.token r
        ≡ (plain StepStatus.progress, record r { session = resumed r.session suspension.token e }))
      × ((resume suspension.token r).1.session.prefix_state ≡ behind_prefix r0.session)
resume-resumed env r0 r result suspension e runs d f p b v =
    let m = resume-midway suspension e r v in
    (m, rw (m) (subst (StaysIn (behind_prefix r0.session)) p (pump-StaysIn env r0 runs d f) b))

-- After a session that is blocked in the middle of a program, with every editable line in flight, is
-- resumed, and as long as no input comes, pump reports progress and changes nothing: the executor,
-- which still holds instructions, is not stepped.
pub pump-resumed :
    (env : Environment) (suspension : BlockedState) (e : AilExecutor) (r : SessionRun)
    → IsMidway r.session suspension e
    → ((resume suspension.token r).1.session.engine.active_executor
        ≡ some (notify_event suspension.token e))
      × (pump env (resume suspension.token r).1
          ≡ some (plain StepStatus.progress, (resume suspension.token r).1))
unfolding pump
pump-resumed env suspension e r v = rw (resume-midway suspension e r v) (refl, rw v.open_)

-- The session once lines are queued that a chunk completed.
queued_lines :
    (chunk : Bytes) (s : ExecutionSession) (line : Bytes) (lines : List Bytes)
    → is_closed s.state ≡ false
    → (complete_lines (s.input_buffer ++ chunk)).0 ≡ line ∷ lines
    → ((push_chunk chunk s).0.engine_dirty ≡ true)
      × ((push_chunk chunk s).0.state ≡ s.state)
      × ((push_chunk chunk s).0.editable_lines ≡ s.editable_lines ++ line ∷ lines)
      × ((push_chunk chunk s).0.engine ≡ s.engine)
unfolding push_chunk
queued_lines chunk s line lines o c = ground (arith, c, o)

push-locked :
    (chunk : Bytes) (s : ExecutionSession)
    → (push_chunk chunk s).0.locked_prefix_lines ≡ s.locked_prefix_lines
unfolding push_chunk
push-locked chunk s = ground arith

rebuilt_engine :
    (s : ExecutionSession) → (sync_engine_with_editable_suffix s).0.engine.active_executor ≡ none
unfolding sync_engine_with_editable_suffix
rebuilt_engine s = ground arith

pump_dirty :
    (env : Environment) (r : SessionRun)
    → r.session.state ≡ EngineState.ready_to_execute
    → r.session.engine_dirty ≡ true
    → pump env r ≡ pump_after_sync env (sync_engine_with_editable_suffix r.session) r.trace
unfolding pump
pump_dirty env r h d = ground (arith, h, d)

ready-open : is_closed EngineState.ready_to_execute ≡ false
unfolding is_closed
ready-open = refl

-- After a session that is blocked in the middle of a program, with every editable line in flight, is
-- resumed, a chunk that completes a line makes the next pump start over with a new engine: the executor that still holds instructions of the locked lines is given up, and only the
-- new lines are run.
pub push-resumed :
    (env : Environment) (suspension : BlockedState) (e : AilExecutor) (r : SessionRun)
    (chunk line : Bytes) (lines : List Bytes)
    → IsMidway r.session suspension e
    → (complete_lines (r.session.input_buffer ++ chunk)).0 ≡ line ∷ lines
    → let t = (push_chunk chunk (resume suspension.token r).1.session).0 in
      (t.engine.active_executor ≡ some (notify_event suspension.token e))
      × (t.locked_prefix_lines ≡ r.session.locked_prefix_lines ++ r.session.editable_lines)
      × (t.editable_lines ≡ line ∷ lines)
      × (pump env (record { session = t; trace = r.trace })
          ≡ pump_after_sync env (sync_engine_with_editable_suffix t) r.trace)
      × ((sync_engine_with_editable_suffix t).0.engine.active_executor ≡ none)
push-resumed env suspension e r chunk line lines v c = rw (resume-midway suspension e r v) (
    let s = resumed r.session suspension.token e in
    let t = (push_chunk chunk s).0 in
    let (dirty, state, editable, engine) = queued_lines chunk s line lines ready-open c in
    (
      ap (λ (x : StreamingExecutionEngine). x.active_executor) engine,
      push-locked chunk s,
      editable,
      pump_dirty env (record { session = t; trace = r.trace }) state dirty,
      rebuilt_engine t,
    ))
