-- ===== src/Engine/Invariant/History.antt =====
-- src/streaming_execution_engine.cpp: the invariant over every history of an engine.
use experimental_gcode_parse.Prelude.{ℕ, ◌≡◌, refl, Bool, Bytes, Option, some}
use experimental_gcode_parse.Floats.{FloatOps}
use experimental_gcode_parse.Lowering.{LowerOptions}
use experimental_gcode_parse.Ail.{AilResult}
use experimental_gcode_parse.Runtime.{WaitToken, token_eq, StepResult}
use experimental_gcode_parse.Engine.State.{StreamingExecutionEngine, Streaming, make_engine}
use experimental_gcode_parse.Engine.Advance.{EngineRuntime}
use experimental_gcode_parse.Engine.Control.{push_chunk, cancel, pump, finish, resume}
use experimental_gcode_parse.Engine.Invariant.{IsValid, IsReported, IsReported?}
use experimental_gcode_parse.Engine.Invariant.Calls.{
  push_chunk-IsValid, pump-IsReported, finish-IsReported, resume-IsReported, cancel-IsReported,
}

-- The engines that calls lead to from a new one, whatever the answers from outside.
pub data Reachable (options : LowerOptions) : StreamingExecutionEngine → Type 0 where
  fresh : Reachable options (make_engine options)
  pushed :
      (chunk : Bytes) (e : StreamingExecutionEngine)
      → Reachable options e
      → Reachable options (push_chunk chunk e).0
  pumped :
      (fuel : ℕ) (ops : FloatOps) (r : EngineRuntime) (parse : Bytes → LowerOptions → AilResult)
      (cancelled : Bool) (s : Streaming) (out : StepResult × Streaming)
      → Reachable options s.engine
      → pump fuel ops r parse cancelled s ≡ some out
      → Reachable options out.1.engine
  finished :
      (fuel : ℕ) (ops : FloatOps) (r : EngineRuntime) (parse : Bytes → LowerOptions → AilResult)
      (cancelled : Bool) (s : Streaming) (out : StepResult × Streaming)
      → Reachable options s.engine
      → finish fuel ops r parse cancelled s ≡ some out
      → Reachable options out.1.engine
  resumed :
      (token : WaitToken) (s : Streaming)
      → Reachable options s.engine
      → Reachable options (resume token s).1.engine
  cancelled : (s : Streaming) → Reachable options s.engine → Reachable options (cancel s).engine

reported :
    (o : Option (StepResult × Streaming)) (out : StepResult × Streaming)
    → o ≡ some out
    → IsReported? o
    → IsValid out.1.engine
reported o out q h = (rw q at h).valid

pub engine-IsValid :
    (options : LowerOptions) {e : StreamingExecutionEngine} → Reachable options e → IsValid e
unfolding make_engine
engine-IsValid options fresh = refl
engine-IsValid options (pushed chunk e h) = push_chunk-IsValid chunk e (engine-IsValid options h)
engine-IsValid options (pumped fuel ops r parse c s out h q) =
    reported (pump fuel ops r parse c s) out q
      (pump-IsReported fuel ops r parse c s (engine-IsValid options h))
engine-IsValid options (finished fuel ops r parse c s out h q) =
    reported (finish fuel ops r parse c s) out q
      (finish-IsReported fuel ops r parse c s (engine-IsValid options h))
engine-IsValid options (resumed token s h) = (resume-IsReported token s).valid
engine-IsValid options (cancelled s h) = (cancel-IsReported s (engine-IsValid options h)).valid

-- Whatever calls of pushChunk, pump, finish, resume and cancel an engine has seen, with whatever
-- answers from outside, it is valid: it waits for a token exactly while it is blocked, keeps the
-- rejected line while it is rejected, and holds no executor once it is completed or cancelled. The
-- result of the next pump, finish or resume names the state that the call leaves the engine in, and
-- carries the suspension or the rejection of that state. Pump and finish are claimed for calls that
-- return within the fuel.
pub engine-IsReported :
    (options : LowerOptions) (fuel : ℕ) (ops : FloatOps) (r : EngineRuntime)
    (parse : Bytes → LowerOptions → AilResult) (answer : Bool) (token : WaitToken) (s : Streaming)
    → Reachable options s.engine
    → IsValid s.engine
      × IsReported? (pump fuel ops r parse answer s)
      × IsReported? (finish fuel ops r parse answer s)
      × IsReported (resume token s)
engine-IsReported options fuel ops r parse answer token s h =
    let v = engine-IsValid options h in
    (
      v,
      pump-IsReported fuel ops r parse answer s v,
      finish-IsReported fuel ops r parse answer s v,
      resume-IsReported token s,
    )
