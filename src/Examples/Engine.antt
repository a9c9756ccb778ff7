-- ===== src/Examples/Engine.antt =====
-- The streaming engine on concrete input.
use experimental_gcode_parse.Prelude.{codes, ◌≡◌, refl, ◌++◌, [], ◌∷◌, false, Option, none, some}
use experimental_gcode_parse.Ail.{refs_empty}
use experimental_gcode_parse.Runtime.{StepStatus, StepResult}
use experimental_gcode_parse.Executor.Step.{step}
use experimental_gcode_parse.Engine.Lines.{complete_lines}
use experimental_gcode_parse.Engine.State.{Streaming, make_engine}
use experimental_gcode_parse.Engine.Pending.{execute_pending_program, lower_pending}
use experimental_gcode_parse.Engine.Control.{push_chunk, pump, finish, resume}
use experimental_gcode_parse.Engine.Input.{push_chunk-append}
use experimental_gcode_parse.Engine.Termination.Pump.{pump-returns}
use experimental_gcode_parse.Engine.Invariant.{IsSome, IsValid, IsReported, IsReported?}
use experimental_gcode_parse.Engine.Invariant.History.{fresh, pushed, engine-IsReported}
use experimental_gcode_parse.Examples.Fixtures.{
  ops, options, engine_runtime, pending, token, two_moves,
}

-- A carriage return is dropped also where the line is split in the middle.
two_lines :
    complete_lines (codes "G1 X1\r\nG1 X2\nG4") ≡ (codes "G1 X1" ∷ codes "G1 X2" ∷ [], codes "G4")
unfolding complete_lines
two_lines = refl

push_chunk-append_example :
    push_chunk (codes "X1\nG4") (push_chunk (codes "G1 ") (make_engine options)).0
    ≡ push_chunk (codes "G1 " ++ codes "X1\nG4") (make_engine options)
push_chunk-append_example = push_chunk-append (codes "G1 ") (codes "X1\nG4") (make_engine options)

-- A new engine with one line of input, and its state of the world.
abbrev fed : Streaming
fed = record {
  engine = (push_chunk (codes "G1 X1" ++ 10 ∷ []) (make_engine options)).0;
  trace = [];
}

engine-IsReported_example :
    IsValid fed.engine
    × IsReported? (pump 9 ops (engine_runtime (pending token)) two_moves false fed)
    × IsReported? (finish 9 ops (engine_runtime (pending token)) two_moves false fed)
    × IsReported (resume token fed)
engine-IsReported_example =
    engine-IsReported options 9 ops (engine_runtime (pending token)) two_moves false token fed
      (pushed (codes "G1 X1" ++ 10 ∷ []) (make_engine options) fresh)

abbrev status_of : Option (StepResult × Streaming) → Option StepStatus
status_of none = none
status_of (some out) = some out.0.status

-- The first move waits for its token.
pump-fed :
    status_of (pump 9 ops (engine_runtime (pending token)) two_moves false fed)
    ≡ some StepStatus.blocked
unfolding pump push_chunk make_engine execute_pending_program step refs_empty
pump-fed = refl

pump-returns_example : IsSome (pump 4 ops (engine_runtime (pending token)) two_moves false fed)
unfolding push_chunk make_engine lower_pending
pump-returns_example =
    pump-returns ops (engine_runtime (pending token)) two_moves false fed
      (record { line = 1; text = codes "G1 X1" }) [] refl refl (tt, (tt, tt))
