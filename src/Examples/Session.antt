-- ===== src/Examples/Session.antt =====
-- A session that is resumed in the middle of a program.
use experimental_gcode_parse.Prelude.{
  codes, ◌≡◌, refl, true, false, ◌+◌, ◌++◌, [], ◌∷◌, length, Option, none, some, arith,
}
use experimental_gcode_parse.Runtime.{
  BlockedState, RejectedState, EngineState, StepStatus, StepResult,
}
use experimental_gcode_parse.Executor.State.{AilExecutor, default_options}
use experimental_gcode_parse.Executor.Step.{make_executor, notify_event}
use experimental_gcode_parse.Engine.Control as EngineControl
use experimental_gcode_parse.Engine.Lines.{complete_lines, strip_cr}
use experimental_gcode_parse.Engine.State.{make_engine, plain}
use experimental_gcode_parse.Session.State.{
  ExecutionSession, SessionRun, make_session, sync_engine_with_editable_suffix,
}
use experimental_gcode_parse.Session.Control.{
  Environment, pump, resume, cancel, push_chunk, pump_after_sync, replace_editable_suffix,
  run_engine_step,
}
use experimental_gcode_parse.Session.Lines.{KeepsLines, KeepsLines?, session-KeepsLines}
use experimental_gcode_parse.Session.Input.{push_chunk-chunks}
use experimental_gcode_parse.Session.Syncing.{IsSynced, sync-IsSynced}
use experimental_gcode_parse.Session.Rejection.{
  IsReplacedBy, rejection_of, run_engine_step-rejected, replace_editable_suffix-IsReplacedBy,
}
use experimental_gcode_parse.Ail.{refs_empty}
use experimental_gcode_parse.Executor.Step.{step}
use experimental_gcode_parse.Engine.Pending.{execute_pending_program}
use experimental_gcode_parse.Session.Suspension.{behind_prefix}
use experimental_gcode_parse.Session.Resumption.{
  IsMidway, resumed, resume-resumed, pump-resumed, push-resumed,
}
use experimental_gcode_parse.Examples.Fixtures.{
  ops, engine_runtime, ready, options, two_moves, looping, token, pending,
}

abbrev env : Environment
env = record {
  fuel = 8;
  ops = ops;
  runtime = engine_runtime ready;
  parse_and_lower_ail = two_moves;
  cancelled = false;
}

abbrev suspension : BlockedState
suspension = record { line = 1; token = token; reason = "instruction execution in progress" }

abbrev executor : AilExecutor
executor = make_executor looping default_options

-- Two lines in flight, the engine blocked on the first.
abbrev blocked_session : ExecutionSession
blocked_session = record (make_session options) {
  engine = record (make_engine options) {
    state = EngineState.blocked;
    blocked = some suspension;
    active_executor = some executor;
  };
  editable_lines = codes "G1 X1" ∷ codes "G1 X2" ∷ [];
  state = EngineState.blocked;
  in_flight_line_count = 2;
}

abbrev blocked_run : SessionRun
blocked_run = record { session = blocked_session; trace = [] }

blocked-IsMidway : IsMidway blocked_session suspension executor
unfolding make_session
blocked-IsMidway = record {
  session_blocked = refl;
  engine_blocked = refl;
  executor = refl;
  waits = refl;
  open_ = refl;
  in_flight = refl;
  some_lines = omega arith;
}

-- A session with a line that the engine has not seen, and what a pump leaves of it: blocked on the
-- first of two moves.
abbrev waiting_env : Environment
waiting_env = record env { runtime = engine_runtime (pending token) }

abbrev dirty_run : SessionRun
dirty_run = record {
  session = record (make_session options) {
    editable_lines = codes "G1 X1" ∷ [];
    engine_dirty = true;
  };
  trace = [];
}

abbrev outcome : Option (StepResult × SessionRun) → StepResult × SessionRun
outcome none = (plain StepStatus.faulted, dirty_run)
outcome (some out) = out

abbrev pumped : StepResult × SessionRun
pumped = outcome (pump waiting_env dirty_run)

abbrev suspension_of : Option BlockedState → BlockedState
suspension_of none = suspension
suspension_of (some s) = s

abbrev executor_of : Option AilExecutor → AilExecutor
executor_of none = executor
executor_of (some e) = e

abbrev pumped_suspension : BlockedState
pumped_suspension = suspension_of pumped.1.session.engine.blocked

abbrev pumped_executor : AilExecutor
pumped_executor = executor_of pumped.1.session.engine.active_executor

pumped-returns : pump waiting_env dirty_run ≡ some pumped
unfolding make_session pump push_chunk execute_pending_program step refs_empty
    sync_engine_with_editable_suffix EngineControl.pump
pumped-returns = refl

pumped-blocked : pumped.0.status ≡ StepStatus.blocked
unfolding make_session pump push_chunk execute_pending_program step refs_empty
    sync_engine_with_editable_suffix EngineControl.pump
pumped-blocked = refl

pumped-IsMidway : IsMidway pumped.1.session pumped_suspension pumped_executor
unfolding make_session pump push_chunk execute_pending_program step refs_empty
    sync_engine_with_editable_suffix EngineControl.pump
pumped-IsMidway = record {
  session_blocked = refl;
  engine_blocked = refl;
  executor = refl;
  waits = refl;
  open_ = refl;
  in_flight = refl;
  some_lines = omega arith;
}

resume-resumed_example :
    (resume pumped_suspension.token pumped.1 ≡ (
      plain StepStatus.progress,
      record pumped.1 {
        session = resumed pumped.1.session pumped_suspension.token pumped_executor;
      },
    ))
    × ((resume pumped_suspension.token pumped.1).1.session.prefix_state
        ≡ behind_prefix dirty_run.session)
unfolding make_session
resume-resumed_example =
    resume-resumed waiting_env dirty_run pumped.1 pumped.0 pumped_suspension pumped_executor tt refl
      refl pumped-returns pumped-blocked pumped-IsMidway

pump-resumed_example :
    ((resume token blocked_run).1.session.engine.active_executor
      ≡ some (notify_event token executor))
    × (pump env (resume token blocked_run).1
        ≡ some (plain StepStatus.progress, (resume token blocked_run).1))
pump-resumed_example = pump-resumed env suspension executor blocked_run blocked-IsMidway

completes_line :
    (complete_lines (blocked_session.input_buffer ++ codes "G1 X3\n")).0 ≡ codes "G1 X3" ∷ []
unfolding complete_lines make_session
completes_line = refl

push-resumed_example :
    let t = (push_chunk (codes "G1 X3\n") (resume token blocked_run).1.session).0 in
    (t.engine.active_executor ≡ some (notify_event token executor))
    × (t.locked_prefix_lines
        ≡ blocked_session.locked_prefix_lines ++ blocked_session.editable_lines)
    × (t.editable_lines ≡ codes "G1 X3" ∷ [])
    × (pump env (record { session = t; trace = [] })
        ≡ pump_after_sync env (sync_engine_with_editable_suffix t) [])
    × ((sync_engine_with_editable_suffix t).0.engine.active_executor ≡ none)
push-resumed_example =
    push-resumed env suspension executor blocked_run (codes "G1 X3\n") (codes "G1 X3") []
      blocked-IsMidway completes_line

session-KeepsLines_example :
    KeepsLines? blocked_session (pump env blocked_run)
    × KeepsLines blocked_session (resume token blocked_run).1.session
    × KeepsLines blocked_session (cancel blocked_run).session
session-KeepsLines_example = session-KeepsLines env token blocked_run

abbrev rejection : RejectedState
rejection = record {
  source = record { filename = none; line = 2; line_number = none };
  reasons = [];
}

run_engine_step-rejected_example :
    let t = run_engine_step (rejection_of rejection) blocked_session in
    ((t.locked_prefix_lines ≡ codes "G1 X1" ∷ []) × (t.editable_lines ≡ codes "G1 X2" ∷ []))
    × (length t.locked_prefix_lines + 1 ≡ 2)
    × (t.state ≡ EngineState.rejected)
    × (t.rejected ≡ some rejection)
    × (t.in_flight_line_count ≡ 0)
unfolding make_session
run_engine_step-rejected_example =
    run_engine_step-rejected rejection blocked_session (omega arith) (omega arith)

abbrev rejected_session : ExecutionSession
rejected_session = record (make_session options) {
  state = EngineState.rejected;
  locked_prefix_lines = codes "G1 X1" ∷ [];
  editable_lines = codes "G1 G2" ∷ [];
  rejected = some rejection;
}

replace_editable_suffix-IsReplacedBy_example :
    ((replace_editable_suffix (codes "G1 X2\nG4") rejected_session).1 ≡ true)
    × IsReplacedBy
        (codes "G1 X2\nG4")
        rejected_session
        (replace_editable_suffix (codes "G1 X2\nG4") rejected_session).0
replace_editable_suffix-IsReplacedBy_example =
    replace_editable_suffix-IsReplacedBy (codes "G1 X2\nG4") rejected_session refl

-- The lines of a session before the engine has seen them.
abbrev dirty_session : ExecutionSession
dirty_session = record (make_session options) {
  editable_lines = codes "G1 X1" ∷ codes "G1 X2" ∷ [];
  engine_dirty = true;
}

sync-IsSynced_example : IsSynced dirty_session (sync_engine_with_editable_suffix dirty_session).0
unfolding strip_cr
sync-IsSynced_example = sync-IsSynced dirty_session (
  ((refl, (refl, (refl, (refl, (refl, tt))))), refl),
  (((refl, (refl, (refl, (refl, (refl, tt))))), refl), tt),
)

push_chunk-chunks_example :
    push_chunk (codes "1\nG4") (push_chunk (codes "G1 X") dirty_session).0
    ≡ push_chunk (codes "G1 X" ++ codes "1\nG4") dirty_session
push_chunk-chunks_example = push_chunk-chunks (codes "G1 X") (codes "1\nG4") dirty_session
