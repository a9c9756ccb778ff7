-- ===== src/Session/Control.antt =====
-- src/execution_session.cpp: pushChunk, pump, finish, resume, cancel, replaceEditableSuffix,
-- rejectedLine and runEngineStep.
use experimental_gcode_parse.Prelude.{
  ℕ, ◌-◌, Bytes, Bool, true, false, ◌&&◌, not, List, [], ◌∷◌, ◌++◌, length, Option, none, some, ltb,
  ◌==◌, nat_eq, if◌then◌else◌,
}
use experimental_gcode_parse.Floats.{FloatOps}
use experimental_gcode_parse.Lowering.{LowerOptions}
use experimental_gcode_parse.Ail.{AilResult}
use experimental_gcode_parse.Runtime.{WaitToken, EngineState, RejectedState, StepStatus, StepResult}
use experimental_gcode_parse.Host.{Trace}
use experimental_gcode_parse.Engine.State.{Streaming, plain}
use experimental_gcode_parse.Engine.Advance.{EngineRuntime}
use experimental_gcode_parse.Engine.Control as EngineControl
use experimental_gcode_parse.Engine.Control.{is_closed}
use experimental_gcode_parse.Session.State.{
  ExecutionSession, SessionRun, enqueue_from_buffer, flush_session_buffer, append_replacement_text,
  rebuild_engine_from_locked_prefix, sync_engine_with_editable_suffix,
  commit_accepted_editable_prefix,
}

-- ExecutionSession::pushChunk
unfoldable pub push_chunk : Bytes → ExecutionSession → ExecutionSession × Bool
unfolding enqueue_from_buffer is_closed
push_chunk chunk s =
    if is_closed s.state
    then (s, false)
    else (enqueue_from_buffer (record s { input_buffer = s.input_buffer ++ chunk }), true)

-- The lines before a rejected one are accepted. Truncated subtraction: the source tests for a
-- positive difference.
unfoldable pub commit_before_rejection : Option RejectedState → ExecutionSession → ExecutionSession
unfolding commit_accepted_editable_prefix
commit_before_rejection none s = s
commit_before_rejection (some rejected) s =
    let accepted = rejected.source.line - 1 - length s.locked_prefix_lines in
    if ltb 0 accepted then commit_accepted_editable_prefix accepted s else s

-- The engine has nothing more to do with the lines in flight.
unfoldable pub is_settled : EngineState → Bool
is_settled EngineState.ready_to_execute = true
is_settled EngineState.completed = true
is_settled _ = false

unfoldable pub commit_in_flight : ExecutionSession → ExecutionSession
unfolding commit_accepted_editable_prefix is_settled
commit_in_flight s =
    if not (s.in_flight_line_count == 0) && is_settled s.engine.state
    then commit_accepted_editable_prefix s.in_flight_line_count s
    else s

-- runEngineStep
unfoldable pub run_engine_step : StepResult → ExecutionSession → ExecutionSession
unfolding commit_before_rejection commit_in_flight
run_engine_step result s = elim result.status [
  | StepStatus.rejected ↦
      let committed =
        commit_before_rejection result.rejected (record s { rejected = result.rejected }) in
      record committed { in_flight_line_count = 0; state = EngineState.rejected }
  | StepStatus.blocked ↦ record s { state = EngineState.blocked }
  | StepStatus.faulted ↦ record s { in_flight_line_count = 0; state = EngineState.faulted }
  | StepStatus.cancelled ↦ record s { in_flight_line_count = 0; state = EngineState.cancelled }
  | StepStatus.completed ↦ record (commit_in_flight s) { state = EngineState.completed }
  | StepStatus.progress ↦
      let committed = commit_in_flight s in record committed { state = committed.engine.state }
]

-- The session takes over the engine and the trace that a call of the engine left.
unfoldable pub after_engine : StepResult × Streaming → SessionRun → StepResult × SessionRun
unfolding run_engine_step
after_engine (result, after) r = (
  result,
  record {
    session = run_engine_step result (record r.session { engine = after.engine });
    trace = after.trace;
  },
)

unfoldable pub after_engine? :
    Option (StepResult × Streaming) → SessionRun → Option (StepResult × SessionRun)
unfolding after_engine
after_engine? none r = none
after_engine? (some result) r = some (after_engine result r)

abbrev pub streaming_of : SessionRun → Streaming
streaming_of r = record { engine = r.session.engine; trace = r.trace }

-- Everything that a call of the engine needs from outside.
pub record Environment : Type 0 where
  pub fuel : ℕ
  pub ops : FloatOps
  pub runtime : EngineRuntime
  pub parse_and_lower_ail : Bytes → LowerOptions → AilResult
  pub cancelled : Bool

unfoldable pub engine_pump : Environment → SessionRun → Option (StepResult × SessionRun)
unfolding after_engine?
engine_pump env r =
    after_engine?
      (EngineControl.pump env.fuel env.ops env.runtime env.parse_and_lower_ail env.cancelled
        (streaming_of r))
      r

unfoldable pub engine_finish : Environment → SessionRun → Option (StepResult × SessionRun)
unfolding after_engine?
engine_finish env r =
    after_engine?
      (EngineControl.finish env.fuel env.ops env.runtime env.parse_and_lower_ail env.cancelled
        (streaming_of r))
      r

-- More input may come: the engine is asked only where there are editable lines.
unfoldable pub pump_lines : List Bytes → Environment → SessionRun → Option (StepResult × SessionRun)
unfolding engine_pump
pump_lines [] env r = some (
  plain StepStatus.progress,
  record r { session = record r.session { state = EngineState.ready_to_execute } },
)
pump_lines (line ∷ lines) env r = engine_pump env r

-- The end of pump, with the engine in step with the editable lines.
unfoldable pub pump_synced : Environment → SessionRun → Option (StepResult × SessionRun)
unfolding pump_lines engine_finish
pump_synced env r =
    if r.session.input_finished
    then engine_finish env r
    else pump_lines r.session.editable_lines env r

unfoldable pub pump_after_sync :
    Environment → ExecutionSession × Bool → Trace → Option (StepResult × SessionRun)
unfolding pump_synced
pump_after_sync env (s, true) trace = pump_synced env (record { session = s; trace = trace })
pump_after_sync env (s, false) trace =
    some (plain StepStatus.faulted, record { session = s; trace = trace })

-- The part of pump behind its tests on the state.
unfoldable pub pump_open : Environment → SessionRun → Option (StepResult × SessionRun)
unfolding pump_synced pump_after_sync sync_engine_with_editable_suffix
pump_open env r =
    if r.session.engine_dirty
    then pump_after_sync env (sync_engine_with_editable_suffix r.session) r.trace
    else pump_synced env r

-- pump, by the state of the session
unfoldable pub pump_in : EngineState → Environment → SessionRun → Option (StepResult × SessionRun)
unfolding engine_pump pump_open
pump_in EngineState.rejected env r =
    some (record (plain StepStatus.rejected) { rejected = r.session.rejected }, r)
pump_in EngineState.faulted env r = some (plain StepStatus.faulted, r)
pump_in EngineState.cancelled env r = some (plain StepStatus.cancelled, r)
pump_in EngineState.blocked env r = engine_pump env r
pump_in EngineState.accepting_input env r = pump_open env r
pump_in EngineState.ready_to_execute env r = pump_open env r
pump_in EngineState.completed env r = pump_open env r

-- ExecutionSession::pump
unfoldable pub pump : Environment → SessionRun → Option (StepResult × SessionRun)
unfolding pump_in
pump env r = pump_in r.session.state env r

-- ExecutionSession::finish
unfoldable pub finish : Environment → SessionRun → Option (StepResult × SessionRun)
unfolding flush_session_buffer pump
finish env r = pump env (record r {
  session =
      flush_session_buffer r.session.input_buffer (record r.session { input_finished = true });
})

-- ExecutionSession::resume; both branches of its test make the same call.
unfoldable pub resume : WaitToken → SessionRun → StepResult × SessionRun
unfolding after_engine
resume token r = after_engine (EngineControl.resume token (streaming_of r)) r

-- ExecutionSession::cancel
unfoldable pub cancel : SessionRun → SessionRun
cancel r =
    let after = EngineControl.cancel (streaming_of r) in
    record {
      session = record r.session {
        engine = after.engine;
        rejected = none;
        in_flight_line_count = 0;
        state = EngineState.cancelled;
      };
      trace = after.trace;
    }

unfoldable pub is_rejected : EngineState → Bool
is_rejected EngineState.rejected = true
is_rejected _ = false

-- ExecutionSession::replaceEditableSuffix
unfoldable pub replace_editable_suffix : Bytes → ExecutionSession → ExecutionSession × Bool
unfolding append_replacement_text rebuild_engine_from_locked_prefix is_rejected
replace_editable_suffix text s =
    if is_rejected s.state
    then (let replaced =
          append_replacement_text text (record s { editable_lines = []; input_buffer = [] }) in
        let rebuilt = rebuild_engine_from_locked_prefix (record replaced { rejected = none }) in
        (record rebuilt { engine_dirty = true; state = EngineState.accepting_input }, true))
    else (s, false)

-- ExecutionSession::rejectedLine
unfoldable pub rejected_line : ExecutionSession → Option ℕ
rejected_line s = elim s.rejected [ none ↦ none | some rejected ↦ some rejected.source.line ]
