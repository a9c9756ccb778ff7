-- ===== src/Engine/Termination.antt =====
-- src/streaming_execution_engine.cpp: the loop of advanceActiveExecutor ends on programs without
-- jumps and calls, and the fuel that is enough.
pub mod Pump
use mathlib.Core.Path.{subst}
use experimental_gcode_parse.Prelude.{
  ℕ, zero, suc, ◌+◌, ◌≤◌, pos, ◌≡◌, ◌⊎◌, inl, inr, refl, sym, ap, ◌∙◌, Bool, true, false, List, [],
  ◌∷◌, Option, none, some, length, All, get_elem?, get_elem?-none, Option-cases, arith,
}
use experimental_gcode_parse.Floats.{FloatOps}
use experimental_gcode_parse.Ail.{AilInstruction}
use experimental_gcode_parse.Runtime.{WaitToken, StepStatus, StepResult}
use experimental_gcode_parse.Executor.State.{
  AilExecutor, ExecutorStatus, ExecutorBlockedState, Machine,
}
use experimental_gcode_parse.Executor.Step.{
  step, complete, advance_instruction, event_ready, time_ready,
}
use experimental_gcode_parse.Executor.Straight.{IsStraight, IsAtWork, Moves}
use experimental_gcode_parse.Executor.Straight.Step.{
  advance_instruction-Moves, step-advances, step-completes,
}
use experimental_gcode_parse.Executor.Waiting.{IsHeld, step-IsHeld}
use experimental_gcode_parse.Executor.Invariant as ExecutorInvariant
use experimental_gcode_parse.Executor.Invariant.Steps.{step-IsValid}
use experimental_gcode_parse.Engine.State.{Streaming, plain}
use experimental_gcode_parse.Engine.Advance.{
  EngineRuntime, host_of, Round, returns, goes_on, waiting_token, end_round, after_step, round,
  advance_active_executor, emit_new_diagnostics,
}
use experimental_gcode_parse.Engine.Invariant.{IsSome}

IsStraight-at :
    (xs : List AilInstruction) (i : ℕ) (x : AilInstruction)
    → All IsStraight xs
    → get_elem? xs i ≡ some x
    → IsStraight x
IsStraight-at [] i x a q = absurd (ground arith)
IsStraight-at (y ∷ ys) zero x a q =
    subst IsStraight (ap (λ (o : Option AilInstruction). elim o [ none ↦ y | some z ↦ z ]) q) a.0
IsStraight-at (y ∷ ys) (suc i) x a q = IsStraight-at ys i x a.1 q

-- The streaming state in which a round leaves the engine whose executor is now `f`.
abbrev stepped : Streaming → Machine → Streaming
stepped s m = record {
  engine = record s.engine { active_executor = some m.executor };
  trace = m.trace;
}

round-after :
    (ops : FloatOps) (r : EngineRuntime) (e : AilExecutor) (s : Streaming) (out : Machine × Bool)
    → step ops (pos 0) (host_of r) (record { executor = e; trace = s.trace }) ≡ out
    → round ops r e s ≡ after_step out.0.executor out.1 (stepped s out.0)
unfolding round
round-after ops r e s out q =
    ap (λ (o : Machine × Bool). after_step o.0.executor o.1 (stepped s o.0)) q

emit-executor :
    (e : AilExecutor) (s : Streaming)
    → (emit_new_diagnostics e s).engine.active_executor ≡ s.engine.active_executor
unfolding emit_new_diagnostics
emit-executor e s = ground arith

-- How a round can leave an executor: the call returns, or the executor is ready, or it is held.
data Left (e : AilExecutor) : Round → Type 0 where
  returned : (out : StepResult × Streaming) → Left e (returns out)
  is_ready :
      (t : Streaming)
      → t.engine.active_executor ≡ some e
      → e.state.status ≡ ExecutorStatus.ready
      → Left e (goes_on t)
  is_held :
      (t : Streaming)
      → t.engine.active_executor ≡ some e
      → e.state.status ≡ ExecutorStatus.blocked
      → waiting_token e ≡ none
      → Left e (goes_on t)

after_step-Left :
    (e : AilExecutor) (s : Streaming) (o : Option WaitToken) (status : ExecutorStatus)
    → waiting_token e ≡ o
    → e.state.status ≡ status
    → s.engine.active_executor ≡ some e
    → Left e (after_step e true s)
unfolding after_step end_round
after_step-Left e s (some token) status w q a = rw (after_step, w) (returned _)
after_step-Left e s none ExecutorStatus.fault w q a = simp (after_step, w, q) (returned _)
after_step-Left e s none ExecutorStatus.completed w q a = simp (after_step, w, q) (returned _)
after_step-Left e s none ExecutorStatus.ready w q a =
    simp (after_step, w, q) (is_ready (emit_new_diagnostics e s) (emit-executor e s ∙ a) q)
after_step-Left e s none ExecutorStatus.blocked w q a =
    simp (after_step, w, q) (is_held (emit_new_diagnostics e s) (emit-executor e s ∙ a) q w)

-- The loop with one round more, by what that round leaves.
pub next_round :
    (fuel : ℕ) (ops : FloatOps) (r : EngineRuntime) (s : Streaming) (e : AilExecutor) (x : Round)
    → s.engine.active_executor ≡ some e
    → round ops r e s ≡ x
    → advance_active_executor (suc fuel) ops r s ≡ elim x [
      | returns result ↦ some result
      | goes_on after ↦ advance_active_executor fuel ops r after
    ]
unfolding advance_active_executor
next_round fuel ops r s e x a q = simp (advance_active_executor, a, q)

after_step-held :
    (e : AilExecutor) (s : Streaming)
    → e.state.status ≡ ExecutorStatus.blocked
    → waiting_token e ≡ none
    → after_step e false s ≡ returns (plain StepStatus.progress, emit_new_diagnostics e s)
unfolding after_step end_round
after_step-held e s q w = simp (after_step, w, q)

-- A held executor ends the call in the next round.
held-returns :
    (fuel : ℕ) (ops : FloatOps) (r : EngineRuntime) (s : Streaming) (e : AilExecutor)
    → s.engine.active_executor ≡ some e
    → e.state.status ≡ ExecutorStatus.blocked
    → waiting_token e ≡ none
    → IsHeld (pos 0) e.state.status e.state.blocked e.pending_events
    → IsSome (advance_active_executor (suc fuel) ops r s)
held-returns fuel ops r s e a q w h =
    let m : Machine = record { executor = e; trace = s.trace } in
    subst (λ x. IsSome x)
      (sym (
        next_round fuel ops r s e _ a (
          round-after ops r e s _ ((step-IsHeld ops (pos 0) (host_of r) m).0 h)
          ∙ after_step-held e (stepped s m) q w)))
      tt

waiting_token-suspended :
    (e : AilExecutor) (suspension : ExecutorBlockedState)
    → e.state.status ≡ ExecutorStatus.blocked
    → e.state.blocked ≡ some suspension
    → waiting_token e ≡ suspension.wait_token
unfolding waiting_token
waiting_token-suspended e suspension q b = simp (waiting_token, q, b)

untimed-IsHeld :
    (e : AilExecutor) (o : Option ExecutorBlockedState)
    → e.state.blocked ≡ o
    → ExecutorInvariant.IsValid e
    → e.state.status ≡ ExecutorStatus.blocked
    → waiting_token e ≡ none
    → ((s : ExecutorBlockedState) → e.state.blocked ≡ some s → s.retry_at_ms ≡ none)
    → IsHeld (pos 0) e.state.status e.state.blocked e.pending_events
unfolding event_ready time_ready
untimed-IsHeld e none b v q w u = absurd (ground (arith, b, q, v.controlled.agrees))
untimed-IsHeld e (some suspension) b v q w u =
    let no_token : suspension.wait_token ≡ none =
      sym (waiting_token-suspended e suspension q b) ∙ w in
    simp (q, b, no_token, u suspension b)

-- The rest of the loop after a round.
Left-returns :
    (fuel : ℕ) (ops : FloatOps) (r : EngineRuntime) (e : AilExecutor) (x : Round)
    → Left e x
    → ((t : Streaming)
        → t.engine.active_executor ≡ some e
        → e.state.status ≡ ExecutorStatus.ready
        → IsSome (advance_active_executor fuel ops r t))
    → ((t : Streaming)
        → t.engine.active_executor ≡ some e
        → e.state.status ≡ ExecutorStatus.blocked
        → waiting_token e ≡ none
        → IsSome (advance_active_executor fuel ops r t))
    → IsSome (elim x [
      | returns result ↦ some result
      | goes_on after ↦ advance_active_executor fuel ops r after
    ])
Left-returns fuel ops r e _ (returned out) go stay = tt
Left-returns fuel ops r e _ (is_ready t a q) go stay = go t a q
Left-returns fuel ops r e _ (is_held t a q w) go stay = stay t a q w

completed-stops : (e : AilExecutor) → (complete e).state.status ≡ ExecutorStatus.ready → ⊥
unfolding complete
completed-stops e h = ground (arith, h)

completed-held : (e : AilExecutor) → (complete e).state.status ≡ ExecutorStatus.blocked → ⊥
unfolding complete
completed-held e h = ground (arith, h)

-- The last round, at the end of the program.
ends :
    (fuel : ℕ) (ops : FloatOps) (r : EngineRuntime) (s : Streaming) (e : AilExecutor)
    → s.engine.active_executor ≡ some e
    → IsAtWork e
    → get_elem? e.instructions e.state.pc ≡ none
    → IsSome (advance_active_executor (suc fuel) ops r s)
ends fuel ops r s e a w q =
    let m : Machine = record { executor = e; trace = s.trace } in
    subst (λ x. IsSome x)
      (sym (
        next_round fuel ops r s e _ a
          (round-after ops r e s _ (step-completes ops (pos 0) (host_of r) m w q))))
      (Left-returns fuel ops r (complete e) _
        (after_step-Left (complete e) (stepped s (record m { executor = complete e })) _ _ refl refl
          refl)
        (λ t b h. absurd (completed-stops e h)) (λ t b h y. absurd (completed-held e h)))

-- A round at an instruction that neither jumps nor calls, given that the call returns if the
-- executor is ready after it.
goes_further :
    (fuel : ℕ) (ops : FloatOps) (r : EngineRuntime) (s : Streaming) (e : AilExecutor)
    (inst : AilInstruction)
    → s.engine.active_executor ≡ some e
    → ExecutorInvariant.IsValid e
    → IsAtWork e
    → IsStraight inst
    → get_elem? e.instructions e.state.pc ≡ some inst
    → ((t : Streaming) (f : AilExecutor)
        → t.engine.active_executor ≡ some f
        → ExecutorInvariant.IsValid f
        → f.state.status ≡ ExecutorStatus.ready
        → Moves e f
        → IsSome (advance_active_executor (suc fuel) ops r t))
    → IsSome (advance_active_executor (suc (suc fuel)) ops r s)
goes_further fuel ops r s e inst a v w i q go =
    let m : Machine = record { executor = e; trace = s.trace } in
    let out = advance_instruction ops (host_of r) inst m in
    let stepping = step-advances ops (pos 0) (host_of r) m inst w q in
    let moves = advance_instruction-Moves ops (host_of r) inst m i w in
    let valid : ExecutorInvariant.IsValid out.executor =
      subst (λ (o : Machine × Bool). ExecutorInvariant.IsValid o.0.executor) stepping
        (step-IsValid ops (pos 0) (host_of r) m v) in
    subst (λ x. IsSome x)
      (sym (next_round (suc fuel) ops r s e _ a (round-after ops r e s _ stepping)))
      (Left-returns (suc fuel) ops r out.executor _
        (after_step-Left out.executor (stepped s out) _ _ refl refl refl)
        (λ t b h. go t out.executor b valid h moves)
        (λ t b h y.
          held-returns fuel ops r t out.executor b h y
            (untimed-IsHeld out.executor _ refl valid h y moves.untimed)))

-- An executor at work on a program without jumps and calls: one round for each instruction that is
-- left, and two more, make the call return.
pub terminates :
    (k : ℕ) (ops : FloatOps) (r : EngineRuntime) (s : Streaming) (e : AilExecutor)
    → s.engine.active_executor ≡ some e
    → ExecutorInvariant.IsValid e
    → IsAtWork e
    → All IsStraight e.instructions
    → length e.instructions ≤ e.state.pc + k
    → IsSome (advance_active_executor (suc (suc k)) ops r s)
terminates zero ops r s e a v w i n =
    ends 1 ops r s e a w (get_elem?-none e.instructions e.state.pc (omega arith))
terminates (suc k) ops r s e a v w i n =
    elim (Option-cases (get_elem? e.instructions e.state.pc))
      as (λ x. IsSome (advance_active_executor (suc (suc (suc k))) ops r s)) [
        | inl q ↦ ends (suc (suc k)) ops r s e a w q
        | inr (inst, q) ↦
            goes_further (suc k) ops r s e inst a v w
              (IsStraight-at e.instructions e.state.pc inst i q) q
              (λ t f b valid h moves.
                terminates k ops r t f b valid (h, moves.unblocked h, moves.frames ∙ w.2)
                  (subst (λ xs. All IsStraight xs) (sym moves.same) i)
                  (ground (arith, n, moves.further h, moves.same)))
      ]
