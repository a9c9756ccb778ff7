-- ===== src/Engine/Carrying.antt =====
-- src/streaming_execution_engine.cpp: what one program leaves to the next.
use experimental_gcode_parse.Prelude.{◌≡◌, refl, ap, [], Option, none, some, arith}
use experimental_gcode_parse.Runtime.{RejectedState, StepResult}
use experimental_gcode_parse.Executor.State.{AilExecutor, AilExecutorInitialState, ExecutorState}
use experimental_gcode_parse.Engine.State.{Streaming, export_initial_state, settle}
use experimental_gcode_parse.Engine.Advance.{
  on_completed, reject_deferred, emit_new_diagnostics, keep_modal_state,
}
use experimental_gcode_parse.Engine.Pending.{executor_initial_state}

-- The modes and tools of an executor, without the selected tool, and its user variables.
abbrev pub left_by : ExecutorState → AilExecutorInitialState
left_by state = record {
  motion_code_current = state.motion_code_current;
  rapid_mode_current = state.rapid_mode_current;
  tool_radius_comp_current = state.tool_radius_comp_current;
  working_plane_current = state.working_plane_current;
  active_tool_selection = state.active_tool_selection;
  pending_tool_selection = state.pending_tool_selection;
  selected_tool_selection = none;
  user_variables = state.user_variables;
}

exported :
    (s : Streaming) (o : Option RejectedState)
    → export_initial_state
        (elim o as (λ x. StepResult × Streaming) [
          | some rejected ↦ reject_deferred rejected s
          | none ↦
              settle s.engine.input_finished
                (record s { engine = record s.engine { pending_lines = [] } })
        ]).1.engine
      ≡ export_initial_state s.engine
unfolding export_initial_state reject_deferred settle
exported s none = ground arith
exported s (some rejected) = refl

-- When an executor has completed its program, the state that the engine exports, and that a session
-- goes back to, has the modes, tools and user variables of the executor. The executor of the next
-- program starts with the same modes and tools, but without any user variable.
pub on_completed-left_by :
    (e : AilExecutor) (s : Streaming)
    → (export_initial_state (on_completed e s).1.engine ≡ left_by e.state)
      × (executor_initial_state (on_completed e s).1.engine
          ≡ record (left_by e.state) { user_variables = [] })
unfolding on_completed export_initial_state keep_modal_state executor_initial_state
on_completed-left_by e s =
    let q =
      exported
        (record (emit_new_diagnostics e s) {
          engine = keep_modal_state e.state (emit_new_diagnostics e s).engine;
        })
        (emit_new_diagnostics e s).engine.deferred_rejected in
    (q, ap (λ (i : AilExecutorInitialState). record i { user_variables = [] }) q)
