-- ===== src/Executor/Invariant/Reachable.antt =====
-- src/ail.cpp: the invariant over every history of an executor.
use experimental_gcode_parse.Prelude.{
  ℕ, ℤ, ◌≡◌, refl, ◌<◌, Bool, List, length, All, Option, none, some, arith, string_eq, int_eq,
}
use native.Mathlib.Nat.{zero-add}
use experimental_gcode_parse.Floats.{FloatOps}
use experimental_gcode_parse.Ail.{AilInstruction}
use experimental_gcode_parse.Runtime.{WaitToken}
use experimental_gcode_parse.Host.{Host, Trace}
use experimental_gcode_parse.Executor.State.{
  AilExecutor, AilExecutorOptions, AilExecutorInitialState, default_state,
}
use experimental_gcode_parse.Executor.Modal.{apply_execution_initial_state}
use experimental_gcode_parse.Executor.Step.{make_executor, notify_event, step}
use experimental_gcode_parse.Executor.Step.Labels.{
  make_executor-positions, positions, positions-below, is_label_of, in_block,
}
use experimental_gcode_parse.Executor.Invariant.{IsValid, IsIndexed, IsControlled}
use experimental_gcode_parse.Executor.Invariant.Steps.{step-IsValid}

initial-IsControlled :
    (n : ℕ) (o : Option AilExecutorInitialState)
    → IsControlled n (apply_execution_initial_state default_state o)
unfolding apply_execution_initial_state
initial-IsControlled n none = record { pc_le = omega arith; agrees = tt }
initial-IsControlled n (some initial) = record { pc_le = omega arith; agrees = tt }

initial_depth :
    (o : Option AilExecutorInitialState)
    → (apply_execution_initial_state default_state o).call_stack_depth ≡ 0
unfolding apply_execution_initial_state
initial_depth none = refl
initial_depth (some initial) = refl

make_executor-IsIndexed :
    (insts : List AilInstruction) (options : AilExecutorOptions)
    → IsIndexed
        (length insts)
        (make_executor insts options).label_positions
        (make_executor insts options).line_number_positions
make_executor-IsIndexed insts options = record {
  label_at = λ name. rw ((make_executor-positions insts options).0 name) (below (is_label_of name));
  number_at = λ n. rw ((make_executor-positions insts options).1 n) (below (in_block n));
}
  where
    below : (test : AilInstruction → Bool) → All (λ p. p < length insts) (positions test 0 insts)
    below test = rw zero-add at (positions-below test 0 insts)

make_executor-IsValid :
    (insts : List AilInstruction) (options : AilExecutorOptions)
    → IsValid (make_executor insts options)
unfolding make_executor
make_executor-IsValid insts options = record {
  indexed = make_executor-IsIndexed insts options;
  frames = tt;
  depth = initial_depth options.initial_state;
  controlled = initial-IsControlled (length insts) options.initial_state;
}

notify_event-IsValid :
    (token : WaitToken) {e : AilExecutor} → IsValid e → IsValid (notify_event token e)
unfolding notify_event
notify_event-IsValid token {e} v = ground arith

-- The executors that some history of calls leads to, from a new one: `step` at any time with any
-- host, and `notifyEvent`, in any order. Between calls the trace may have grown.
pub data Reachable (insts : List AilInstruction) (options : AilExecutorOptions)
    : AilExecutor → Type 0 where
  fresh : Reachable insts options (make_executor insts options)
  stepped :
      {e : AilExecutor} (ops : FloatOps) (now_ms : ℤ) (host : Host) (trace : Trace)
      → Reachable insts options e
      → Reachable insts options
          (step ops now_ms host (record { executor = e; trace = trace })).0.executor
  notified :
      {e : AilExecutor} (token : WaitToken)
      → Reachable insts options e
      → Reachable insts options (notify_event token e)

-- Whatever program and options an executor is made with, and whatever calls of `step` and
-- `notifyEvent` follow in whatever order, with whatever answers of runtime and resolver: the
-- program counter, resume index and frames stay within the program, the depth counts the frames,
-- and status, suspension and fault message agree.
pub Reachable-IsValid :
    (insts : List AilInstruction) (options : AilExecutorOptions) {e : AilExecutor}
    → Reachable insts options e
    → IsValid e
Reachable-IsValid insts options fresh = make_executor-IsValid insts options
Reachable-IsValid insts options (stepped ops now_ms host trace r) =
    step-IsValid ops now_ms host _ (Reachable-IsValid insts options r)
Reachable-IsValid insts options (notified token r) =
    notify_event-IsValid token (Reachable-IsValid insts options r)
