-- ===== src/Executor/Step/Wake.antt =====
-- src/ail.cpp: notifyEvent and wakeBlockedExecutorIfReady.
use experimental_gcode_parse.Prelude.{
  ℤ, leb_ℤ, Bool, false, ◌||◌, List, [], ◌∷◌, Option, none, some, ◌==◌, string_eq, int_eq,
  if◌then◌else◌,
}
use experimental_gcode_parse.Runtime.{WaitToken, token_eq}
use experimental_gcode_parse.Executor.State.{
  AilExecutor, ExecutorStatus, ExecutorState, ExecutorBlockedState,
}
use experimental_gcode_parse.Executor.Tools.{active_of}

-- `pending_events_` is a set.
unfoldable pub contains_event : WaitToken → List WaitToken → Bool
contains_event token [] = false
contains_event token (t ∷ ts) = t == token || contains_event token ts

unfoldable pub erase_event : WaitToken → List WaitToken → List WaitToken
erase_event token [] = []
erase_event token (t ∷ ts) = if t == token then ts else t ∷ erase_event token ts

-- AilExecutor::notifyEvent
unfoldable pub notify_event : WaitToken → AilExecutor → AilExecutor
unfolding contains_event
notify_event token e =
    if contains_event token e.pending_events
    then e
    else record e { pending_events = token ∷ e.pending_events }

unfoldable pub event_ready : Option WaitToken → List WaitToken → Bool
unfolding contains_event
event_ready none events = false
event_ready (some token) events = contains_event token events

-- The set of events after the test: a token that was found is erased.
unfoldable pub consume_event : Option WaitToken → List WaitToken → List WaitToken
unfolding erase_event
consume_event none events = events
consume_event (some token) events = erase_event token events

unfoldable pub time_ready : ℤ → Option ℤ → Bool
time_ready now_ms none = false
time_ready now_ms (some retry_at_ms) = leb_ℤ retry_at_ms now_ms

-- The state in which a blocked executor wakes up.
unfoldable pub wake_state : ExecutorBlockedState → ExecutorState → ExecutorState
unfolding active_of
wake_state blocked state = elim blocked.tool_change_target_on_resume [
  | none ↦ record state {
    status = ExecutorStatus.ready;
    pc = blocked.instruction_index;
    blocked = none;
  }
  | some selection ↦ record state {
    active_tool_selection = active_of selection;
    selected_tool_selection = none;
    status = ExecutorStatus.ready;
    pc = blocked.instruction_index;
    blocked = none;
  }
]

unfoldable pub try_wake : ℤ → ExecutorBlockedState → AilExecutor → Option AilExecutor
unfolding event_ready consume_event time_ready wake_state
try_wake now_ms blocked e =
    if event_ready blocked.wait_token e.pending_events || time_ready now_ms blocked.retry_at_ms
    then some (record e {
      pending_events = consume_event blocked.wait_token e.pending_events;
      state = wake_state blocked e.state;
    })
    else none

-- wakeBlockedExecutorIfReady; `none` where it returns false, and then nothing has changed.
unfoldable pub wake_blocked_executor_if_ready : ℤ → AilExecutor → Option AilExecutor
unfolding try_wake
wake_blocked_executor_if_ready now_ms e = elim e.state.status [
  | ExecutorStatus.blocked ↦ elim e.state.blocked [
    | none ↦ some e
    | some blocked ↦ try_wake now_ms blocked e
  ]
  | _ ↦ some e
]
