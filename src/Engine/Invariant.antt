-- ===== src/Engine/Invariant.antt =====
-- src/streaming_execution_engine.cpp: what holds of an engine between two calls, and how the result
-- of a call goes with the engine that it leaves.
pub mod Loop
pub mod Calls
pub mod History
use experimental_gcode_parse.Prelude.{
  ℕ, String, ◌≡◌, ◌⊎◌, refl, Bool, Option-cases, true, false, List, [], ◌∷◌, Option, none, some,
  if_either, arith, Bool-cases, inl, inr, ◌&&◌, not, ltb, if◌then◌else◌,
}
use experimental_gcode_parse.Floats.{FloatOps}
use experimental_gcode_parse.Lowering.{LowerOptions, RejectedLine}
use experimental_gcode_parse.Ast.{Diagnostic}
use experimental_gcode_parse.Ail.{AilResult, AilInstruction, has_value}
use experimental_gcode_parse.Runtime.{
  WaitToken, EngineState, BlockedState, RejectedState, StepStatus, StepResult,
}
use experimental_gcode_parse.Executor.State.{AilExecutor, ExecutorStatus}
use experimental_gcode_parse.Engine.State.{
  StreamingExecutionEngine, Streaming, PendingLine, make_blocked_result, make_rejected_result,
  fault_with_diagnostic, settle,
}
use experimental_gcode_parse.Engine.Advance.{
  emit_new_diagnostics, on_fault, reject_deferred, on_completed, fault_diagnostic,
  should_wait_for_more_input_on_fault, wait_for_more_input, fault_with_executor, drop_executor,
  keep_modal_state,
}

abbrev pub IsSome {ℓ} : {A : Type ℓ} → Option A → Type 0
IsSome none = ⊥
IsSome (some a) = Unit

-- What each state of the engine says of its members.
abbrev pub Agrees : EngineState → StreamingExecutionEngine → Type 0
Agrees EngineState.accepting_input e = e.blocked ≡ none
Agrees EngineState.ready_to_execute e = e.blocked ≡ none
Agrees EngineState.blocked e = IsSome e.blocked
Agrees EngineState.rejected e = (e.blocked ≡ none) × IsSome e.rejected
Agrees EngineState.completed e = (e.blocked ≡ none) × (e.active_executor ≡ none)
Agrees EngineState.cancelled e = (e.blocked ≡ none) × (e.active_executor ≡ none)
Agrees EngineState.faulted e = e.blocked ≡ none

-- The engine waits for a token exactly in the blocked state, has a rejected line in the rejected
-- state, and has no executor in the completed and the cancelled state.
abbrev pub IsValid : StreamingExecutionEngine → Type 0
IsValid e = Agrees e.state e

-- The status of a result is the state of the engine, and its details are those of the engine.
abbrev pub Reports : StepStatus → StepResult → StreamingExecutionEngine → Type 0
Reports StepStatus.progress result e =
    (e.state ≡ EngineState.accepting_input) ⊎ (e.state ≡ EngineState.ready_to_execute)
Reports StepStatus.blocked result e = (e.state ≡ EngineState.blocked) × (result.blocked ≡ e.blocked)
Reports StepStatus.rejected result e =
    (e.state ≡ EngineState.rejected) × (result.rejected ≡ e.rejected)
Reports StepStatus.faulted result e = e.state ≡ EngineState.faulted
Reports StepStatus.cancelled result e = e.state ≡ EngineState.cancelled
Reports StepStatus.completed result e = e.state ≡ EngineState.completed

-- A call that left a valid engine and reported its state.
pub record IsReported (out : StepResult × Streaming) : Type 0 where
  pub valid : IsValid out.1.engine
  pub reports : Reports out.0.status out.0 out.1.engine

abbrev pub IsReported? : Option (StepResult × Streaming) → Type 0
IsReported? none = Unit
IsReported? (some out) = IsReported out

-- The engine is at work.
abbrev pub IsOpen : StreamingExecutionEngine → Type 0
IsOpen e =
    ((e.state ≡ EngineState.accepting_input) ⊎ (e.state ≡ EngineState.ready_to_execute))
    × (e.blocked ≡ none)

pub IsOpen-IsValid : (e : StreamingExecutionEngine) → IsOpen e → IsValid e
IsOpen-IsValid e (inl s, b) = rw s b
IsOpen-IsValid e (inr s, b) = rw s b

pub make_blocked_result-IsReported :
    (line : ℕ) (token : WaitToken) (reason : String) (s : Streaming)
    → IsReported (make_blocked_result line token reason s)
unfolding make_blocked_result
make_blocked_result-IsReported line token reason s = record { valid = tt; reports = (refl, refl) }

pub make_rejected_result-IsReported :
    (rejected : RejectedState) (s : Streaming) → IsReported (make_rejected_result rejected s)
unfolding make_rejected_result
make_rejected_result-IsReported rejected s = record { valid = (refl, tt); reports = (refl, refl) }

pub fault_with_diagnostic-IsReported :
    (diag : Diagnostic) (s : Streaming) → IsReported (fault_with_diagnostic diag s)
unfolding fault_with_diagnostic
fault_with_diagnostic-IsReported diag s = record { valid = refl; reports = refl }

pub settle-IsReported :
    (b : Bool) (s : Streaming)
    → s.engine.blocked ≡ none
    → (b ≡ true → s.engine.active_executor ≡ none)
    → IsReported (settle b s)
unfolding settle
settle-IsReported true s n h = record { valid = (n, h refl); reports = refl }
settle-IsReported false s n h = record { valid = n; reports = inr refl }

pub emit_new_diagnostics-IsOpen :
    (e : AilExecutor) (s : Streaming) → IsOpen s.engine → IsOpen (emit_new_diagnostics e s).engine
unfolding emit_new_diagnostics
emit_new_diagnostics-IsOpen e s v = if_either {A = Streaming} (λ t. IsOpen t.engine) _ v v

fault_by :
    (b : Bool) (ds : List Diagnostic) (diag : Diagnostic) (s t : Streaming)
    → s.engine.blocked ≡ none
    → IsReported (
        if b
        then wait_for_more_input s
        else elim ds [ [] ↦ fault_with_diagnostic diag t | d ∷ rest ↦ fault_with_executor diag t ])
unfolding wait_for_more_input fault_with_executor fault_with_diagnostic
fault_by true ds diag s t n = record { valid = n; reports = inr refl }
fault_by false [] diag s t n = record { valid = refl; reports = refl }
fault_by false (d ∷ ds) diag s t n = record { valid = refl; reports = refl }

on_fault-IsReported :
    (e : AilExecutor) (s : Streaming) → IsOpen s.engine → IsReported (on_fault e s)
unfolding on_fault
on_fault-IsReported e s (o, n) =
    fault_by
      (not s.engine.input_finished
        && should_wait_for_more_input_on_fault (fault_diagnostic e s.engine.active_executor_line))
      e.diagnostics (fault_diagnostic e s.engine.active_executor_line) s
      (drop_executor (emit_new_diagnostics e s)) n

-- What follows once the last diagnostics of a completed executor are out.
completed-IsReported :
    (e : AilExecutor) (s : Streaming)
    → s.engine.blocked ≡ none
    → s.engine.active_executor ≡ none
    → (o : Option RejectedState)
    → IsReported (elim o [
      | some rejected ↦ reject_deferred rejected s
      | none ↦
          settle s.engine.input_finished
            (record s { engine = record s.engine { pending_lines = [] } })
    ])
unfolding reject_deferred
completed-IsReported e s n a none = settle-IsReported _ _ n (λ h. a)
completed-IsReported e s n a (some rejected) = record { valid = (refl, tt); reports = (refl, refl) }

on_completed-IsReported :
    (e : AilExecutor) (s : Streaming) → IsOpen s.engine → IsReported (on_completed e s)
unfolding on_completed keep_modal_state
on_completed-IsReported e s v =
    completed-IsReported e _ (emit_new_diagnostics-IsOpen e s v).1 refl _
