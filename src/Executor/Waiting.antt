-- ===== src/Executor/Waiting.antt =====
-- src/ail.cpp: waiting for the runtime and waking up, against an answer that comes at once.
use mathlib.Core.Path.{ap₂}
use experimental_gcode_parse.Prelude.{
  ℕ, suc, ℤ, String, ◌≡◌, refl, sym, ap, ◌∙◌, false, ◌||◌, List, Option, none, some, ==_refl, arith,
  Bool-cases, inl, inr,
}
use experimental_gcode_parse.Floats.{FloatOps}
use experimental_gcode_parse.Lowering.{SourceInfo}
use experimental_gcode_parse.Ail.{AilInstruction, ToolSelectionState}
use experimental_gcode_parse.Runtime.{WaitToken, token_eq, RuntimeResult, RuntimeCallStatus}
use experimental_gcode_parse.Host.{Host}
use experimental_gcode_parse.Executor.State.{
  AilExecutor, ExecutorStatus, ExecutorBlockedState, Machine, next_pc, block_on,
}
use experimental_gcode_parse.Executor.Dispatch.{make_runtime_dispatch_result, make_progress_result}
use experimental_gcode_parse.Executor.Tools.{after_tool_change, complete_tool_change}
use experimental_gcode_parse.Executor.Step.{
  contains_event, erase_event, notify_event, event_ready, consume_event, wake_state, try_wake,
  wake_blocked_executor_if_ready, update_motion_code, motion_code_override_for_dispatch,
  after_dispatch, step, step_awake, time_ready,
}

-- An executor that a handler can be running in, which has not heard of the token yet.
pub record IsAwaiting (token : WaitToken) (e : AilExecutor) : Type 0 where
  pub ready : e.state.status ≡ ExecutorStatus.ready
  pub not_blocked : e.state.blocked ≡ none
  pub fresh : contains_event token e.pending_events ≡ false

wake_notified :
    (now_ms : ℤ) (token : WaitToken) (suspension : ExecutorBlockedState) (e : AilExecutor)
    → e.state.status ≡ ExecutorStatus.blocked
    → e.state.blocked ≡ some suspension
    → suspension.wait_token ≡ some token
    → contains_event token e.pending_events ≡ false
    → wake_blocked_executor_if_ready now_ms (notify_event token e)
      ≡ some (record e { state = wake_state suspension e.state })
unfolding wake_blocked_executor_if_ready notify_event try_wake event_ready consume_event
    contains_event erase_event
wake_notified now_ms token suspension e s b w f = ground (arith, s, b, w, f, ==_refl token)

restored :
    (e : AilExecutor)
    → e.state.status ≡ ExecutorStatus.ready
    → e.state.blocked ≡ none
    → record e { state = record e.state { status = ExecutorStatus.ready; blocked = none } } ≡ e
restored e s b =
    ap₂
      (λ status suspension. record e {
        state = record e.state { status = status; blocked = suspension };
      })
      (sym s) (sym b)

-- A tool change that the runtime answers with a token, and that is notified and woken up from, leaves
-- the executor that a tool change which completes at once leaves.
pub after_tool_change-wake :
    (now_ms : ℤ) (source : SourceInfo) (target : ToolSelectionState) (token : WaitToken)
    (result : RuntimeResult WaitToken) (e : AilExecutor)
    → IsAwaiting token e
    → result.status ≡ RuntimeCallStatus.pending
    → result.wait_token ≡ some token
    → wake_blocked_executor_if_ready now_ms
        (notify_event token (after_tool_change source target result e))
      ≡ some (complete_tool_change target e)
unfolding after_tool_change complete_tool_change wake_state
after_tool_change-wake now_ms source target token result e v p w =
    rw (after_tool_change, p, w)
      (wake_notified now_ms token _ _ refl refl refl v.fresh
        ∙ ap some (restored (complete_tool_change target e) v.ready v.not_blocked))

motion_wakes :
    (now_ms : ℤ) (token : WaitToken) (code : Option String) (e : AilExecutor)
    → IsAwaiting token e
    → wake_blocked_executor_if_ready now_ms (
        notify_event token (
          block_on
            (record {
              instruction_index = suc (update_motion_code code e).state.pc;
              wait_token = some token;
              retry_at_ms = none;
              tool_change_target_on_resume = none;
            })
            (update_motion_code code e)))
      ≡ some (next_pc (update_motion_code code e))
unfolding update_motion_code wake_state block_on next_pc
motion_wakes now_ms token none e v =
    wake_notified now_ms token _ _ refl refl refl v.fresh
    ∙ ap some (restored (next_pc e) v.ready v.not_blocked)
motion_wakes now_ms token (some code) e v =
    wake_notified now_ms token _ _ refl refl refl v.fresh
    ∙ ap some (restored (next_pc (update_motion_code (some code) e)) v.ready v.not_blocked)

-- A motion that the runtime answers with a token, and that is notified and woken up from, leaves
-- the executor that an answer at once leaves, whatever the messages.
pub after_dispatch-wake :
    (now_ms : ℤ) (inst : AilInstruction) (line : ℕ) (message : String) (token : WaitToken)
    (result : RuntimeResult WaitToken) (other : AilExecutor → AilExecutor) (e : AilExecutor)
    → IsAwaiting token e
    → result.status ≡ RuntimeCallStatus.pending
    → result.wait_token ≡ some token
    → wake_blocked_executor_if_ready now_ms (
        notify_event token
          (after_dispatch inst (make_runtime_dispatch_result line result message) other e))
      ≡ some (after_dispatch inst (make_progress_result line) other e)
unfolding after_dispatch make_progress_result make_runtime_dispatch_result
after_dispatch-wake now_ms inst line message token result other e v p w =
    rw (make_runtime_dispatch_result, p, w)
      (motion_wakes now_ms token (motion_code_override_for_dispatch inst) e v)

-- Nothing can move the executor: it has stopped, or neither its token nor its time has come.
abbrev pub IsHeld : ℤ → ExecutorStatus → Option ExecutorBlockedState → List WaitToken → Type 0
IsHeld now_ms ExecutorStatus.ready suspension events = ⊥
IsHeld now_ms ExecutorStatus.completed suspension events = Unit
IsHeld now_ms ExecutorStatus.fault suspension events = Unit
IsHeld now_ms ExecutorStatus.blocked none events = ⊥
IsHeld now_ms ExecutorStatus.blocked (some s) events =
    (event_ready s.wait_token events || time_ready now_ms s.retry_at_ms) ≡ false

step_awake-IsHeld :
    (ops : FloatOps) (now_ms : ℤ) (host : Host) (m : Machine) (o : Option ExecutorBlockedState)
    → m.executor.state.blocked ≡ o
    → (IsHeld now_ms ExecutorStatus.blocked o m.executor.pending_events
        → step_awake ops host
            (elim o [
              | none ↦ some m.executor
              | some suspension ↦ try_wake now_ms suspension m.executor
            ])
            m
          ≡ (m, false))
      × ((step_awake ops host
              (elim o [
                | none ↦ some m.executor
                | some suspension ↦ try_wake now_ms suspension m.executor
              ])
              m).1
            ≡ false
          → IsHeld now_ms ExecutorStatus.blocked o m.executor.pending_events)
unfolding step_awake try_wake
step_awake-IsHeld ops now_ms host m none b = ((λ h. absurd h), λ h. absurd (ground (arith, h)))
step_awake-IsHeld ops now_ms host m (some suspension) b =
    elim (Bool-cases (
      event_ready suspension.wait_token m.executor.pending_events
      || time_ready now_ms suspension.retry_at_ms)) [
        | inl go ↦
            rw (try_wake, go) ((λ h. absurd (ground (arith, h))), λ h. absurd (ground (arith, h)))
        | inr stay ↦ rw (try_wake, stay) ((λ h. refl), λ h. refl)
      ]

step_by :
    (ops : FloatOps) (now_ms : ℤ) (host : Host) (m : Machine) (status : ExecutorStatus)
    → m.executor.state.status ≡ status
    → (IsHeld now_ms status m.executor.state.blocked m.executor.pending_events
        → step ops now_ms host m ≡ (m, false))
      × ((step ops now_ms host m).1 ≡ false
          → IsHeld now_ms status m.executor.state.blocked m.executor.pending_events)
unfolding step wake_blocked_executor_if_ready step_awake
step_by ops now_ms host m ExecutorStatus.fault s = simp (step, s) ((λ h. refl), λ h. tt)
step_by ops now_ms host m ExecutorStatus.completed s = simp (step, s) ((λ h. refl), λ h. tt)
step_by ops now_ms host m ExecutorStatus.ready s =
    ((λ h. absurd h), λ h. absurd (ground (arith, s, h)))
step_by ops now_ms host m ExecutorStatus.blocked s =
    simp (step, wake_blocked_executor_if_ready, s)
      (step_awake-IsHeld ops now_ms host m m.executor.state.blocked refl)

-- A step does nothing exactly where the executor is held: where it has stopped, or is blocked and
-- neither its token has been notified nor its time has come, step returns false and leaves the
-- executor, the events it knows and the trace; and it returns false in no other case.
pub step-IsHeld :
    (ops : FloatOps) (now_ms : ℤ) (host : Host) (m : Machine)
    → (IsHeld now_ms m.executor.state.status m.executor.state.blocked m.executor.pending_events
        → step ops now_ms host m ≡ (m, false))
      × ((step ops now_ms host m).1 ≡ false
          → IsHeld now_ms m.executor.state.status m.executor.state.blocked
              m.executor.pending_events)
step-IsHeld ops now_ms host m = step_by ops now_ms host m m.executor.state.status refl
