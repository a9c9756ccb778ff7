-- ===== src/Examples/Waiting.antt =====
-- Waiting, waking and jumping on concrete programs.
use experimental_gcode_parse.Prelude.{pos, ◌≡◌, refl, false, [], some, ℤ, ◌⊎◌}
use experimental_gcode_parse.Executor.State.{AilExecutor, Machine, default_options}
use experimental_gcode_parse.Executor.Dispatch.{make_runtime_dispatch_result, make_progress_result}
use experimental_gcode_parse.Executor.Tools.{after_tool_change, complete_tool_change}
use experimental_gcode_parse.Executor.Step.{
  make_executor, contains_event, notify_event, wake_blocked_executor_if_ready, after_dispatch,
  advance_other, step, event_ready, time_ready,
}
use experimental_gcode_parse.Executor.Step.Labels.{positions, is_label_of, in_block}
use experimental_gcode_parse.Executor.Goto.{target_line_number, resolve_goto_target}
use experimental_gcode_parse.Executor.Targets.{IsTargetOf, resolve_goto_target-IsTargetOf}
use experimental_gcode_parse.Executor.Waiting.{
  IsAwaiting, after_tool_change-wake, after_dispatch-wake, IsHeld, step-IsHeld,
}
use experimental_gcode_parse.Examples.Fixtures.{
  ops, host, looping, at_line, tool_7, token, pending, move_x, goto_label,
}

abbrev new_executor : AilExecutor
new_executor = make_executor looping default_options

new_executor-IsAwaiting : IsAwaiting token new_executor
unfolding make_executor contains_event
new_executor-IsAwaiting = record { ready = refl; not_blocked = refl; fresh = refl }

after_tool_change-wake_example :
    wake_blocked_executor_if_ready
      (pos 5)
      (notify_event token (after_tool_change (at_line 1) tool_7 (pending token) new_executor))
    ≡ some (complete_tool_change tool_7 new_executor)
after_tool_change-wake_example =
    after_tool_change-wake (pos 5) (at_line 1) tool_7 token (pending token) new_executor
      new_executor-IsAwaiting refl refl

after_dispatch-wake_example :
    wake_blocked_executor_if_ready (pos 5) (
      notify_event token (
        after_dispatch
          (move_x 3 7)
          (make_runtime_dispatch_result 3 (pending token) "linear move in progress")
          (advance_other (move_x 3 7))
          new_executor))
    ≡ some (
        after_dispatch
          (move_x 3 7)
          (make_progress_result 3)
          (advance_other (move_x 3 7))
          new_executor)
after_dispatch-wake_example =
    after_dispatch-wake (pos 5) (move_x 3 7) 3 "linear move in progress" token (pending token)
      (advance_other (move_x 3 7)) new_executor new_executor-IsAwaiting refl refl

abbrev waiting : Machine
waiting = record {
  executor = after_tool_change (at_line 1) tool_7 (pending token) new_executor;
  trace = [];
}

step-IsHeld_example :
    (IsHeld
        (pos 0)
        waiting.executor.state.status
        waiting.executor.state.blocked
        waiting.executor.pending_events
      → step ops (pos 0) host waiting ≡ (waiting, false))
    × ((step ops (pos 0) host waiting).1 ≡ false
        → IsHeld
            (pos 0)
            waiting.executor.state.status
            waiting.executor.state.blocked
            waiting.executor.pending_events)
step-IsHeld_example = step-IsHeld ops (pos 0) host waiting

-- It has not been notified, so nothing happens.
step-waiting : step ops (pos 0) host waiting ≡ (waiting, false)
unfolding after_tool_change make_executor event_ready time_ready
step-waiting = (step-IsHeld ops (pos 0) host waiting).0 refl

resolve_goto_target-IsTargetOf_example :
    ((goto_label "GOTOF" "END").target_kind ≡ "label"
      → IsTargetOf 1
          (goto_label "GOTOF" "END")
          (positions (is_label_of "END") 0 looping)
          (resolve_goto_target 1
            (goto_label "GOTOF" "END")
            (make_executor looping default_options)).0)
    × ((n : ℤ)
        → ((goto_label "GOTOF" "END").target_kind ≡ "line_number")
          ⊎ ((goto_label "GOTOF" "END").target_kind ≡ "number")
        → target_line_number (goto_label "GOTOF" "END") ≡ some n
        → IsTargetOf 1
            (goto_label "GOTOF" "END")
            (positions (in_block n) 0 looping)
            (resolve_goto_target 1
              (goto_label "GOTOF" "END")
              (make_executor looping default_options)).0)
resolve_goto_target-IsTargetOf_example =
    resolve_goto_target-IsTargetOf 1 (goto_label "GOTOF" "END") looping default_options
