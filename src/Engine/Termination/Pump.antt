-- ===== src/Engine/Termination/Pump.antt =====
-- src/streaming_execution_engine.cpp: pump returns on programs without jumps and calls.
use mathlib.Core.Path.{subst}
use experimental_gcode_parse.Prelude.{
  ℕ, suc, ◌≡◌, refl, sym, Bool, true, false, List, [], ◌∷◌, Bytes, Option, none, some, length, All,
  Bool-cases, inl, inr, arith,
}
use experimental_gcode_parse.Floats.{FloatOps}
use experimental_gcode_parse.Lowering.{LowerOptions}
use experimental_gcode_parse.Ail.{AilInstruction, AilResult}
use experimental_gcode_parse.Runtime.{EngineState, StepResult}
use experimental_gcode_parse.Executor.State.{default_options}
use experimental_gcode_parse.Executor.Modal.{apply_execution_initial_state}
use experimental_gcode_parse.Executor.Step.{make_executor}
use experimental_gcode_parse.Executor.Straight.{IsStraight}
use experimental_gcode_parse.Executor.Invariant.Reachable.{fresh, Reachable-IsValid}
use experimental_gcode_parse.Engine.State.{Streaming, PendingLine, emit_diagnostics, settle}
use experimental_gcode_parse.Engine.Advance.{EngineRuntime, advance_active_executor}
use experimental_gcode_parse.Engine.Pending.{
  waits_for_endif, finish_without_instructions, defer_rejected, start_executor,
  executor_initial_state, lower_pending, execute_lowered, execute_pending_program,
}
use experimental_gcode_parse.Engine.Control.{pump, pump_in, pump_open}
use experimental_gcode_parse.Engine.Invariant.{IsSome}
use experimental_gcode_parse.Engine.Termination.{terminates}

start-returns :
    (insts : List AilInstruction) (line : ℕ) (ops : FloatOps) (r : EngineRuntime) (s : Streaming)
    → All IsStraight insts
    → IsSome (
        advance_active_executor
          (suc (suc (length insts)))
          ops
          r
          (record s { engine = start_executor insts line s.engine }))
unfolding start_executor make_executor apply_execution_initial_state
start-returns insts line ops r s i =
    let options = record default_options {
      initial_state = some (executor_initial_state s.engine);
    } in
    terminates (length insts) ops r (record s { engine = start_executor insts line s.engine })
      (make_executor insts options) refl (Reachable-IsValid insts options fresh) (refl, refl, refl)
      i (omega arith)

instructions-return :
    (ops : FloatOps) (r : EngineRuntime) (line : ℕ) (lowered : AilResult) (s : Streaming) (fuel : ℕ)
    (insts : List AilInstruction)
    → fuel ≡ suc (suc (length insts))
    → All IsStraight insts
    → IsSome (elim insts [
      | [] ↦ some (
          finish_without_instructions lowered.rejected_lines
            (record s { trace = emit_diagnostics lowered.diagnostics s.trace }))
      | inst ∷ rest ↦
          advance_active_executor fuel ops r
            (record (defer_rejected lowered.rejected_lines lowered.diagnostics s) {
              engine =
                  start_executor
                    (inst ∷ rest)
                    line
                    (defer_rejected lowered.rejected_lines lowered.diagnostics s).engine;
            })
    ])
instructions-return ops r line lowered s fuel [] q i = tt
instructions-return ops r line lowered s fuel (inst ∷ rest) q i = rw q (
    start-returns (inst ∷ rest) line ops r
      (defer_rejected lowered.rejected_lines lowered.diagnostics s) i)

execute_lowered-returns :
    (ops : FloatOps) (r : EngineRuntime) (line : ℕ) (lowered : AilResult) (s : Streaming)
    → All IsStraight lowered.instructions
    → IsSome (execute_lowered (suc (suc (length lowered.instructions))) ops r line lowered s)
unfolding execute_lowered
execute_lowered-returns ops r line lowered s i =
    elim (Bool-cases (waits_for_endif lowered.rejected_lines s.engine.input_finished)) [
      | inl q ↦ rw (execute_lowered, q) tt
      | inr q ↦
          rw (execute_lowered, q)
            (instructions-return ops r line lowered s _ lowered.instructions refl i)
    ]

either_lines :
    (x : Option (StepResult × Streaming)) (s : Streaming) (lines : List PendingLine)
    → IsSome x
    → IsSome (elim lines [ l ∷ ls ↦ x | [] ↦ some (settle s.engine.input_finished s) ])
either_lines x s [] h = tt
either_lines x s (l ∷ ls) h = h

pump_open-returns :
    (ops : FloatOps) (r : EngineRuntime) (parse : Bytes → LowerOptions → AilResult)
    (cancelled : Bool) (s : Streaming) (first : PendingLine) (others : List PendingLine)
    → s.engine.active_executor ≡ none
    → s.engine.pending_lines ≡ first ∷ others
    → All IsStraight (lower_pending parse first others s.engine.options).instructions
    → IsSome (
        pump_open
          (suc (suc (length (lower_pending parse first others s.engine.options).instructions)))
          ops
          r
          parse
          cancelled
          s)
unfolding pump_open execute_pending_program
pump_open-returns ops r parse true s first others a p i = simp (pump_open, a) tt
pump_open-returns ops r parse false s first others a p i =
    simp (pump_open, a)
      (either_lines _ s s.engine.pending_lines (
        subst
          (λ lines. IsSome (
            execute_pending_program
              (suc (suc (length (lower_pending parse first others s.engine.options).instructions)))
              ops r parse lines s))
          (sym p)
          (execute_lowered-returns ops r first.line
            (lower_pending parse first others s.engine.options) s i)))

-- A pump with no executor at work returns, whatever the state of the engine and the answers of the
-- runtime, if the lowered program of the pending lines has neither jumps nor calls; a return is
-- allowed, at which the executor faults. Two rounds more than the program has instructions are
-- enough.
pub pump-returns :
    (ops : FloatOps) (r : EngineRuntime) (parse : Bytes → LowerOptions → AilResult)
    (cancelled : Bool) (s : Streaming) (first : PendingLine) (others : List PendingLine)
    → s.engine.active_executor ≡ none
    → s.engine.pending_lines ≡ first ∷ others
    → All IsStraight (lower_pending parse first others s.engine.options).instructions
    → IsSome (
        pump
          (suc (suc (length (lower_pending parse first others s.engine.options).instructions)))
          ops
          r
          parse
          cancelled
          s)
unfolding pump pump_in
pump-returns ops r parse cancelled s first others a p i = by_state s.engine.state
  where
    fuel : ℕ
    fuel = suc (suc (length (lower_pending parse first others s.engine.options).instructions))

    by_state : (st : EngineState) → IsSome (pump_in st fuel ops r parse cancelled s)
    by_state EngineState.accepting_input =
        pump_open-returns ops r parse cancelled s first others a p i
    by_state EngineState.ready_to_execute =
        pump_open-returns ops r parse cancelled s first others a p i
    by_state EngineState.blocked = tt
    by_state EngineState.rejected = tt
    by_state EngineState.completed = tt
    by_state EngineState.cancelled = tt
    by_state EngineState.faulted = tt
