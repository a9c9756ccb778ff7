-- ===== src/Engine/Resuming.antt =====
-- src/streaming_execution_engine.cpp: resume.
use experimental_gcode_parse.Prelude.{◌≡◌, none, some, ==_refl, arith}
use experimental_gcode_parse.Runtime.{token_eq, BlockedState, EngineState, StepStatus}
use experimental_gcode_parse.Executor.State.{AilExecutor}
use experimental_gcode_parse.Executor.Step.{notify_event}
use experimental_gcode_parse.Engine.State.{Streaming, plain, settle}
use experimental_gcode_parse.Engine.Control.{resume, resume_with, notify_executor, no_more_work}

resume_blocked :
    (suspension : BlockedState) (s : Streaming)
    → s.engine.state ≡ EngineState.blocked
    → s.engine.blocked ≡ some suspension
    → resume suspension.token s ≡ resume_with suspension.token s
unfolding resume
resume_blocked suspension s p q = ground (arith, ==_refl suspension.token, p, q)

-- The engine that waits for a token is resumed with it while its executor has more to do.
pub resume_executor :
    (suspension : BlockedState) (e : AilExecutor) (s : Streaming)
    → s.engine.state ≡ EngineState.blocked
    → s.engine.blocked ≡ some suspension
    → s.engine.active_executor ≡ some e
    → resume suspension.token s ≡ (
      plain StepStatus.progress,
      record s {
        engine = record s.engine {
          active_executor = some (notify_event suspension.token e);
          blocked = none;
          rejected = none;
          state = EngineState.ready_to_execute;
        };
      },
    )
unfolding resume_with notify_executor no_more_work settle
resume_executor suspension e s p q x = rw (resume_blocked suspension s p q) ground (arith, x)
