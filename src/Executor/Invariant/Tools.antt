-- ===== src/Executor/Invariant/Tools.antt =====
-- The tool handlers of src/ail.cpp keep the executor's invariant.
use experimental_gcode_parse.Prelude.{
  String, ◌+++◌, ◌∷◌, Option, none, some, arith, Option-cases, inl, inr,
}
use experimental_gcode_parse.Ail.{ToolSelectionState, ToolSelectionResolution, ToolSelect}
use experimental_gcode_parse.Lowering.{SourceInfo, ErrorPolicy}
use experimental_gcode_parse.Host.{Event, Runtime}
use experimental_gcode_parse.Executor.State.{AilExecutor, Machine}
use experimental_gcode_parse.Executor.Tools.{
  dispatch_tool_change_at_pc, warn_substituted, refuse_selection, refuse_change,
  handle_tool_select_at_pc, change_to_pending, change_without_tool, handle_tool_change_at_pc,
  resolve_tool_selection, unresolved_detail, set_pending, tool_change_command,
}
use experimental_gcode_parse.Executor.Invariant.{IsValid, IsRunning}
use experimental_gcode_parse.Executor.Invariant.Basic.{
  next_pc-IsValid, add_fault-IsValid, add_warning-IsRunning, set_pending-IsRunning,
  complete_tool_change-IsValid, after_tool_change-IsValid,
}

pub dispatch_tool_change-IsValid :
    (source : SourceInfo) (target : ToolSelectionState) (runtime : Option Runtime) (m : Machine)
    → IsRunning m.executor
    → IsValid (dispatch_tool_change_at_pc source target runtime m).executor
unfolding dispatch_tool_change_at_pc
dispatch_tool_change-IsValid source target none m v = complete_tool_change-IsValid target v
dispatch_tool_change-IsValid source target (some runtime) m v =
    let cmd = tool_change_command source target m.executor in
    after_tool_change-IsValid source target
      (runtime.submit_tool_change (Event.tool_change cmd ∷ m.trace) cmd) v

warn_substituted-IsRunning :
    (source : SourceInfo) (requested : ToolSelectionState) (resolution : ToolSelectionResolution)
    {e : AilExecutor}
    → IsRunning e
    → IsRunning (warn_substituted source requested resolution e)
unfolding warn_substituted
warn_substituted-IsRunning source requested resolution {e} v =
    ground (arith, add_warning-IsRunning v source)

refuse_selection-IsValid :
    (source : SourceInfo) (policy : ErrorPolicy) (detail : String) {e : AilExecutor}
    → IsRunning e
    → IsValid (refuse_selection source policy detail e)
unfolding refuse_selection
refuse_selection-IsValid source ErrorPolicy.error detail v = record {
  indexed = v.indexed;
  frames = v.frames;
  depth = v.depth;
  controlled = ground arith;
}
refuse_selection-IsValid source ErrorPolicy.warning detail v =
    next_pc-IsValid (set_pending-IsRunning (add_warning-IsRunning v source _) none)
refuse_selection-IsValid source ErrorPolicy.ignore detail v =
    next_pc-IsValid (set_pending-IsRunning v none)

refuse_change-IsValid :
    (source : SourceInfo) (policy : ErrorPolicy) (detail : String) {e : AilExecutor}
    → IsRunning e
    → IsValid (refuse_change source policy detail e)
unfolding refuse_change
refuse_change-IsValid source ErrorPolicy.error detail v =
    add_fault-IsValid (set_pending-IsRunning v none) source detail
refuse_change-IsValid source ErrorPolicy.warning detail v =
    next_pc-IsValid (set_pending-IsRunning (add_warning-IsRunning v source _) none)
refuse_change-IsValid source ErrorPolicy.ignore detail v =
    next_pc-IsValid (set_pending-IsRunning v none)

pub handle_tool_select-IsValid :
    (inst : ToolSelect) (runtime : Option Runtime) (m : Machine)
    → IsRunning m.executor
    → IsValid (handle_tool_select_at_pc inst runtime m).executor
unfolding handle_tool_select_at_pc
handle_tool_select-IsValid inst runtime m v =
    let requested : ToolSelectionState = record {
      selector_index = inst.selector_index;
      selector_value = inst.selector_value;
    } in
    let e = m.executor in
    let resolution = resolve_tool_selection requested e.options in
    ground (
      arith,
      next_pc-IsValid (set_pending-IsRunning v (some requested)),
      dispatch_tool_change-IsValid inst.source resolution.selection runtime
          (record m {
            executor = set_pending none (warn_substituted inst.source requested resolution e);
          })
          (set_pending-IsRunning (warn_substituted-IsRunning inst.source requested resolution v)
            none),
      refuse_selection-IsValid inst.source e.options.unresolved_tool_policy
          (unresolved_detail "tool selection unresolved" resolution.message) v,
      refuse_selection-IsValid inst.source e.options.ambiguous_tool_policy
          (unresolved_detail "tool selection ambiguous" resolution.message) v,
    )

pub change_to_pending-IsValid :
    (source : SourceInfo) (pending : ToolSelectionState) (runtime : Option Runtime) (m : Machine)
    → IsRunning m.executor
    → IsValid (change_to_pending source pending runtime m).executor
unfolding change_to_pending
change_to_pending-IsValid source pending runtime m v =
    let e = m.executor in
    let resolution = resolve_tool_selection pending e.options in
    ground (
      arith,
      dispatch_tool_change-IsValid source resolution.selection runtime
          (record m { executor = warn_substituted source pending resolution e })
          (warn_substituted-IsRunning source pending resolution v),
      refuse_change-IsValid source e.options.unresolved_tool_policy
          (unresolved_detail "tool selection unresolved" resolution.message) v,
      refuse_change-IsValid source e.options.ambiguous_tool_policy
          (unresolved_detail "tool selection ambiguous" resolution.message) v,
    )

change_without_tool-IsValid :
    (source : SourceInfo) {e : AilExecutor} → IsRunning e → IsValid (change_without_tool source e)
unfolding change_without_tool
change_without_tool-IsValid source {e} v = ground (
  arith,
  next_pc-IsValid v,
  add_fault-IsValid v source "M6 requested with no pending or active tool selection",
  next_pc-IsValid (
      add_warning-IsRunning v source
        ("M6 requested with no pending or active tool selection" +++ "; ignored by policy")),
)

pub handle_tool_change-IsValid :
    (source : SourceInfo) (runtime : Option Runtime) (m : Machine)
    → IsRunning m.executor
    → IsValid (handle_tool_change_at_pc source runtime m).executor
unfolding handle_tool_change_at_pc
handle_tool_change-IsValid source runtime m v =
    elim (Option-cases m.executor.state.pending_tool_selection) [
      | inl e ↦ elim (Option-cases m.executor.state.active_tool_selection) [
        | inl f ↦ rw (e, f, handle_tool_change_at_pc) (change_without_tool-IsValid source v)
        | inr (active, f) ↦
            rw (e, f, handle_tool_change_at_pc)
              (dispatch_tool_change-IsValid source active runtime m v)
      ]
      | inr (pending, e) ↦
          rw (e, handle_tool_change_at_pc) (change_to_pending-IsValid source pending runtime m v)
    ]
