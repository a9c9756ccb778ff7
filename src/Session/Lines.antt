-- ===== src/Session/Lines.antt =====
-- src/execution_session.cpp: no call loses, reorders or invents a line.
use mathlib.Core.List.{append_assoc, append-nil}
use mathlib.Core.Path.{ap₂}
use experimental_gcode_parse.Prelude.{
  ℕ, ◌-◌, Bytes, Bool, true, false, ◌≡◌, refl, ◌∙◌, List, [], ◌∷◌, ◌++◌, length, take-append-drop,
  Option, none, some, arith, if_either,
}
use experimental_gcode_parse.Runtime.{WaitToken, EngineState, RejectedState, StepStatus, StepResult}
use experimental_gcode_parse.Host.{Trace}
use experimental_gcode_parse.Engine.State.{Streaming}
use experimental_gcode_parse.Engine.Control as EngineControl
use experimental_gcode_parse.Session.State.{
  ExecutionSession, SessionRun, commit_accepted_editable_prefix, sync_engine_with_editable_suffix,
}
use experimental_gcode_parse.Session.Control.{
  Environment, commit_before_rejection, commit_in_flight, run_engine_step, after_engine?,
  streaming_of, cancel, engine_pump, engine_finish, pump_lines, pump_synced, pump_after_sync,
  pump_open, pump_in, pump, resume,
}

-- All the lines of a session, the locked ones first.
abbrev pub all_lines : ExecutionSession → List Bytes
all_lines s = s.locked_prefix_lines ++ s.editable_lines

-- The second list goes on where the first ends.
abbrev pub IsExtension {ℓ} : {A : Type ℓ} → List A → List A → Type ℓ
IsExtension {A} xs ys = (zs : List A) × (ys ≡ xs ++ zs)

-- From the first session to the second no line was lost, moved or made up, lines were only locked,
-- and the text that is not yet cut into lines is the same.
pub record KeepsLines (s t : ExecutionSession) : Type 0 where
  pub same_lines : all_lines t ≡ all_lines s
  pub locks : IsExtension s.locked_prefix_lines t.locked_prefix_lines
  pub same_buffer : t.input_buffer ≡ s.input_buffer

KeepsLines-refl : (s : ExecutionSession) → KeepsLines s s
KeepsLines-refl s = record { same_lines = refl; locks = ([], rw append-nil); same_buffer = refl }

commit-KeepsLines :
    (n : ℕ) (s : ExecutionSession) → KeepsLines s (commit_accepted_editable_prefix n s)
unfolding commit_accepted_editable_prefix
commit-KeepsLines n s = record {
  same_lines = rw (append_assoc s.locked_prefix_lines, take-append-drop);
  locks = (_, refl);
  same_buffer = refl;
}

commit_before_rejection-KeepsLines :
    (o : Option RejectedState) (s : ExecutionSession) → KeepsLines s (commit_before_rejection o s)
unfolding commit_before_rejection
commit_before_rejection-KeepsLines none s = KeepsLines-refl s
commit_before_rejection-KeepsLines (some rejected) s = ground (
  arith,
  KeepsLines-refl s,
  commit-KeepsLines (rejected.source.line - 1 - length s.locked_prefix_lines) s,
)

commit_in_flight-KeepsLines : (s : ExecutionSession) → KeepsLines s (commit_in_flight s)
unfolding commit_in_flight
commit_in_flight-KeepsLines s =
    ground (arith, KeepsLines-refl s, commit-KeepsLines s.in_flight_line_count s)

-- Only lines and buffers matter.
keeps_with :
    {s t u : ExecutionSession}
    → u.locked_prefix_lines ≡ t.locked_prefix_lines
    → u.editable_lines ≡ t.editable_lines
    → u.input_buffer ≡ t.input_buffer
    → KeepsLines s t
    → KeepsLines s u
keeps_with p q r k = record {
  same_lines = rw (p, q) k.same_lines;
  locks = (k.locks.0, rw p k.locks.1);
  same_buffer = r ∙ k.same_buffer;
}

run_engine_step_by :
    (result : StepResult) (s : ExecutionSession) (status : StepStatus)
    → result.status ≡ status
    → KeepsLines s (run_engine_step result s)
unfolding run_engine_step
run_engine_step_by result s StepStatus.rejected q =
    let k =
      commit_before_rejection-KeepsLines result.rejected
        (record s { rejected = result.rejected }) in
    rw (q, run_engine_step)
      (record { same_lines = k.same_lines; locks = k.locks; same_buffer = k.same_buffer })
run_engine_step_by result s StepStatus.completed q =
    rw (q, run_engine_step)
      (keeps_with {t = commit_in_flight s} refl refl refl (commit_in_flight-KeepsLines s))
run_engine_step_by result s StepStatus.progress q =
    rw (q, run_engine_step)
      (keeps_with {t = commit_in_flight s} refl refl refl (commit_in_flight-KeepsLines s))
run_engine_step_by result s StepStatus.blocked q =
    rw (q, run_engine_step) (keeps_with {t = s} refl refl refl (KeepsLines-refl s))
run_engine_step_by result s StepStatus.faulted q =
    rw (q, run_engine_step) (keeps_with {t = s} refl refl refl (KeepsLines-refl s))
run_engine_step_by result s StepStatus.cancelled q =
    rw (q, run_engine_step) (keeps_with {t = s} refl refl refl (KeepsLines-refl s))

-- The same of a call that may run out of fuel.
abbrev pub KeepsLines? : ExecutionSession → Option (StepResult × SessionRun) → Type 0
KeepsLines? s none = Unit
KeepsLines? s (some (result, r)) = KeepsLines s r.session

after_engine-KeepsLines :
    (o : Option (StepResult × Streaming)) (r : SessionRun)
    → KeepsLines? r.session (after_engine? o r)
unfolding after_engine?
after_engine-KeepsLines none r = tt
after_engine-KeepsLines (some (result, after)) r =
    let s : ExecutionSession = record r.session { engine = after.engine } in
    let k = run_engine_step_by result s result.status refl in
    record { same_lines = k.same_lines; locks = k.locks; same_buffer = k.same_buffer }

engine_pump-KeepsLines :
    (env : Environment) (r : SessionRun) → KeepsLines? r.session (engine_pump env r)
unfolding engine_pump
engine_pump-KeepsLines env r = after_engine-KeepsLines _ r

engine_finish-KeepsLines :
    (env : Environment) (r : SessionRun) → KeepsLines? r.session (engine_finish env r)
unfolding engine_finish
engine_finish-KeepsLines env r = after_engine-KeepsLines _ r

pump_lines-KeepsLines :
    (lines : List Bytes) (env : Environment) (r : SessionRun)
    → KeepsLines? r.session (pump_lines lines env r)
unfolding pump_lines
pump_lines-KeepsLines [] env r =
    keeps_with {t = r.session} refl refl refl (KeepsLines-refl r.session)
pump_lines-KeepsLines (line ∷ lines) env r = engine_pump-KeepsLines env r

pump_synced-KeepsLines :
    (env : Environment) (r : SessionRun) → KeepsLines? r.session (pump_synced env r)
unfolding pump_synced
pump_synced-KeepsLines env r =
    if_either (KeepsLines? r.session) r.session.input_finished (engine_finish-KeepsLines env r)
      (pump_lines-KeepsLines r.session.editable_lines env r)

-- A session whose lines and buffer are those of another.
abbrev SameLines : ExecutionSession → ExecutionSession → Type 0
SameLines s t =
    (t.locked_prefix_lines ≡ s.locked_prefix_lines)
    × (t.editable_lines ≡ s.editable_lines)
    × (t.input_buffer ≡ s.input_buffer)

KeepsLines?-from :
    (s t : ExecutionSession) (o : Option (StepResult × SessionRun))
    → SameLines s t
    → KeepsLines? t o
    → KeepsLines? s o
KeepsLines?-from s t none h k = tt
KeepsLines?-from s t (some (result, r)) (p, q, b) k = record {
  same_lines = k.same_lines ∙ ap₂ ◌++◌ p q;
  locks = (k.locks.0, rw p at k.locks.1);
  same_buffer = k.same_buffer ∙ b;
}

sync_lines : (s : ExecutionSession) → SameLines s (sync_engine_with_editable_suffix s).0
unfolding sync_engine_with_editable_suffix
sync_lines s = ground arith

pump_after_sync-KeepsLines :
    (env : Environment) (synced : ExecutionSession × Bool) (trace : Trace)
    → KeepsLines? synced.0 (pump_after_sync env synced trace)
unfolding pump_after_sync
pump_after_sync-KeepsLines env (s, true) trace = pump_synced-KeepsLines env _
pump_after_sync-KeepsLines env (s, false) trace = KeepsLines-refl s

pump_open-KeepsLines :
    (env : Environment) (r : SessionRun) → KeepsLines? r.session (pump_open env r)
unfolding pump_open
pump_open-KeepsLines env r =
    let synced = sync_engine_with_editable_suffix r.session in
    if_either (KeepsLines? r.session) r.session.engine_dirty
      (KeepsLines?-from r.session synced.0 (pump_after_sync env synced r.trace)
        (sync_lines r.session) (pump_after_sync-KeepsLines env synced r.trace))
      (pump_synced-KeepsLines env r)

pump_in-KeepsLines :
    (state : EngineState) (env : Environment) (r : SessionRun)
    → KeepsLines? r.session (pump_in state env r)
unfolding pump_in
pump_in-KeepsLines EngineState.blocked env r = engine_pump-KeepsLines env r
pump_in-KeepsLines EngineState.rejected env r = KeepsLines-refl r.session
pump_in-KeepsLines EngineState.faulted env r = KeepsLines-refl r.session
pump_in-KeepsLines EngineState.cancelled env r = KeepsLines-refl r.session
pump_in-KeepsLines EngineState.accepting_input env r = pump_open-KeepsLines env r
pump_in-KeepsLines EngineState.ready_to_execute env r = pump_open-KeepsLines env r
pump_in-KeepsLines EngineState.completed env r = pump_open-KeepsLines env r

resume-KeepsLines :
    (token : WaitToken) (r : SessionRun) → KeepsLines r.session (resume token r).1.session
unfolding resume after_engine?
resume-KeepsLines token r =
    after_engine-KeepsLines (some (EngineControl.resume token (streaming_of r))) r

-- Whatever the engine does in between, pump, resume and cancel lose, reorder and invent no line: the
-- locked lines followed by the editable ones stay the same list, lines only move to the end of the
-- locked prefix, and the text not yet cut into lines stays. Pump is claimed for calls that return
-- within the fuel.
pub session-KeepsLines :
    (env : Environment) (token : WaitToken) (r : SessionRun)
    → KeepsLines? r.session (pump env r)
      × KeepsLines r.session (resume token r).1.session
      × KeepsLines r.session (cancel r).session
unfolding pump cancel
session-KeepsLines env token r = (
  pump_in-KeepsLines r.session.state env r,
  resume-KeepsLines token r,
  keeps_with {t = r.session} refl refl refl (KeepsLines-refl r.session),
)
