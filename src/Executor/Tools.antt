-- ===== src/Executor/Tools.antt =====
-- src/ail.cpp: tool selection (T) and tool change (M6).
use experimental_gcode_parse.Prelude.{
  suc, String, ◌+++◌, Bool, true, false, ◌&&◌, not, ◌∷◌, Option, none, some, ◌==◌, string_eq,
  if◌then◌else◌, lookup, is_empty,
}
use experimental_gcode_parse.Lowering.{SourceInfo, ErrorPolicy}
use experimental_gcode_parse.Ail.{
  ToolSelectionState, ToolSelectionResolution, ToolSelectionResolutionKind, ToolSelect,
  ToolActionTiming, has_value,
}
use experimental_gcode_parse.Runtime.{
  WaitToken, RuntimeResult, RuntimeCallStatus, ToolChangeCommand,
}
use experimental_gcode_parse.Host.{Event, Runtime}
use experimental_gcode_parse.Executor.State.{
  AilExecutorOptions, AilExecutor, Machine, add_fault, add_warning, next_pc, block_on,
}
use experimental_gcode_parse.Executor.Modal.{make_execution_modal_state}
use experimental_gcode_parse.Executor.Command.{build_tool_change_command}

-- makeResolvedToolSelection
abbrev pub make_resolved_tool_selection :
    ToolSelectionState → Bool → String → ToolSelectionResolution
make_resolved_tool_selection selection substituted message = record {
  kind = ToolSelectionResolutionKind.resolved;
  selection = selection;
  substituted = substituted;
  message = message;
}

-- makeUnresolvedToolSelection
abbrev pub make_unresolved_tool_selection : ToolSelectionState → String → ToolSelectionResolution
make_unresolved_tool_selection selection message = record {
  kind = ToolSelectionResolutionKind.unresolved;
  selection = selection;
  substituted = false;
  message = message;
}

unfoldable pub substitute_tool : ToolSelectionState → AilExecutorOptions → ToolSelectionResolution
substitute_tool selection options =
    elim (lookup selection.selector_value options.tool_substitution_map) [
      | none ↦ make_resolved_tool_selection selection false ""
      | some mapped ↦
          make_resolved_tool_selection (record selection { selector_value = mapped })
            (not (mapped == selection.selector_value)) "tool selection substituted by policy map"
    ]

-- defaultResolveToolSelection
unfoldable pub default_resolve_tool_selection :
    ToolSelectionState → AilExecutorOptions → ToolSelectionResolution
unfolding substitute_tool
default_resolve_tool_selection selection options =
    if is_empty selection.selector_value
    then elim options.fallback_tool_selection [
      | some fallback ↦
          make_resolved_tool_selection fallback true
            "tool unresolved; fallback selection applied by policy"
      | none ↦ make_unresolved_tool_selection selection "tool selection unresolved by policy"
    ]
    else if options.allow_tool_substitution
    then substitute_tool selection options
    else make_resolved_tool_selection selection false ""

-- The configured resolver, or the default one.
unfoldable pub resolve_tool_selection :
    ToolSelectionState → AilExecutorOptions → ToolSelectionResolution
unfolding default_resolve_tool_selection
resolve_tool_selection selection options = elim options.tool_selection_resolver [
  | some resolver ↦ resolver selection
  | none ↦ default_resolve_tool_selection selection options
]

-- isDeselectSelector
unfoldable pub is_deselect_selector : ToolSelectionState → Bool
is_deselect_selector selection =
    not (has_value selection.selector_index) && selection.selector_value == "0"

-- The active tool that a resolved selection leads to.
unfoldable pub active_of : ToolSelectionState → Option ToolSelectionState
unfolding is_deselect_selector
active_of selection = if is_deselect_selector selection then none else some selection

-- applyResolvedToolSelection
unfoldable pub apply_resolved_tool_selection : ToolSelectionState → AilExecutor → AilExecutor
unfolding active_of
apply_resolved_tool_selection selection e = record e {
  state = record e.state { active_tool_selection = active_of selection };
}

unfoldable pub set_pending : Option ToolSelectionState → AilExecutor → AilExecutor
set_pending selection e = record e { state = record e.state { pending_tool_selection = selection } }

unfoldable pub set_selected : Option ToolSelectionState → AilExecutor → AilExecutor
set_selected selection e = record e {
  state = record e.state { selected_tool_selection = selection };
}

-- The end of a tool change that need not wait.
unfoldable pub complete_tool_change : ToolSelectionState → AilExecutor → AilExecutor
unfolding apply_resolved_tool_selection set_pending set_selected next_pc
complete_tool_change target e =
    next_pc (set_selected none (set_pending none (apply_resolved_tool_selection target e)))

-- What dispatchToolChangeAtPc makes of the runtime's answer.
unfoldable pub after_tool_change :
    SourceInfo → ToolSelectionState → RuntimeResult WaitToken → AilExecutor → AilExecutor
unfolding complete_tool_change add_fault set_pending set_selected block_on
after_tool_change source target result e = elim result.status [
  | RuntimeCallStatus.error ↦ add_fault source result.error_message e
  | RuntimeCallStatus.ready ↦ complete_tool_change target e
  | RuntimeCallStatus.pending ↦ elim result.wait_token [
    | none ↦ complete_tool_change target e
    | some token ↦ set_pending none (
        block_on
          (record {
            instruction_index = suc e.state.pc;
            wait_token = some token;
            retry_at_ms = none;
            tool_change_target_on_resume = some target;
          })
          (set_selected (some target) e))
  ]
]

-- The command that dispatchToolChangeAtPc builds.
unfoldable pub tool_change_command :
    SourceInfo → ToolSelectionState → AilExecutor → ToolChangeCommand
unfolding build_tool_change_command make_execution_modal_state
tool_change_command source target e =
    build_tool_change_command source source.line target
      (record (make_execution_modal_state e.state none) {
        pending_tool_selection = none;
        selected_tool_selection = some target;
      })

-- AilExecutor::dispatchToolChangeAtPc
unfoldable pub dispatch_tool_change_at_pc :
    SourceInfo → ToolSelectionState → Option Runtime → Machine → Machine
unfolding complete_tool_change after_tool_change tool_change_command
dispatch_tool_change_at_pc source target none m = record m {
  executor = complete_tool_change target m.executor;
}
dispatch_tool_change_at_pc source target (some runtime) m =
    let cmd = tool_change_command source target m.executor in
    let emitted = Event.tool_change cmd ∷ m.trace in
    record {
      executor =
          after_tool_change source target (runtime.submit_tool_change emitted cmd) m.executor;
      trace = Event.submit_tool_change cmd ∷ emitted;
    }

unfoldable pub warn_substituted :
    SourceInfo → ToolSelectionState → ToolSelectionResolution → AilExecutor → AilExecutor
unfolding add_warning
warn_substituted source requested resolution e =
    if resolution.substituted
    then add_warning source
        ("tool selection substituted: "
          +++ (requested.selector_value
              +++ (" -> "
                  +++ (resolution.selection.selector_value
                      +++ (if is_empty resolution.message
                          then ""
                          else " (" +++ (resolution.message +++ ")"))))))
        e
    else e

unfoldable pub unresolved_detail : String → String → String
unresolved_detail reason message =
    if is_empty message then reason else reason +++ (": " +++ message)

-- A selection that the resolver refused, for T: the policy says whether this is a fault. The
-- instruction is passed in either case.
unfoldable pub refuse_selection : SourceInfo → ErrorPolicy → String → AilExecutor → AilExecutor
unfolding add_fault add_warning set_pending next_pc
refuse_selection source policy detail e = next_pc (
    set_pending none (elim policy [
      | ErrorPolicy.error ↦ add_fault source detail e
      | ErrorPolicy.warning ↦ add_warning source (detail +++ "; ignored by policy") e
      | ErrorPolicy.ignore ↦ e
    ]))

-- The same for M6, where a fault leaves the program counter on the instruction.
unfoldable pub refuse_change : SourceInfo → ErrorPolicy → String → AilExecutor → AilExecutor
unfolding add_fault add_warning set_pending next_pc
refuse_change source policy detail e = elim policy [
  | ErrorPolicy.error ↦ add_fault source detail (set_pending none e)
  | ErrorPolicy.warning ↦
      next_pc (set_pending none (add_warning source (detail +++ "; ignored by policy") e))
  | ErrorPolicy.ignore ↦ next_pc (set_pending none e)
]

-- AilExecutor::handleToolSelectAtPc
unfoldable pub handle_tool_select_at_pc : ToolSelect → Option Runtime → Machine → Machine
unfolding resolve_tool_selection warn_substituted dispatch_tool_change_at_pc refuse_selection
    set_pending next_pc unresolved_detail
handle_tool_select_at_pc inst runtime m =
    let selection : ToolSelectionState = record {
      selector_index = inst.selector_index;
      selector_value = inst.selector_value;
    } in
    let e = m.executor in
    elim inst.timing [
      | ToolActionTiming.deferred_until_m6 ↦ record m {
        executor = next_pc (set_pending (some selection) e);
      }
      | ToolActionTiming.immediate ↦
          let resolution = resolve_tool_selection selection e.options in
          elim resolution.kind [
            | ToolSelectionResolutionKind.resolved ↦
                dispatch_tool_change_at_pc inst.source resolution.selection runtime (record m {
                  executor = set_pending none (warn_substituted inst.source selection resolution e);
                })
            | ToolSelectionResolutionKind.unresolved ↦ record m {
              executor =
                  refuse_selection inst.source e.options.unresolved_tool_policy
                    (unresolved_detail "tool selection unresolved" resolution.message) e;
            }
            | ToolSelectionResolutionKind.ambiguous ↦ record m {
              executor =
                  refuse_selection inst.source e.options.ambiguous_tool_policy
                    (unresolved_detail "tool selection ambiguous" resolution.message) e;
            }
          ]
    ]

-- M6 where a selection is pending.
unfoldable pub change_to_pending :
    SourceInfo → ToolSelectionState → Option Runtime → Machine → Machine
unfolding resolve_tool_selection warn_substituted dispatch_tool_change_at_pc refuse_change
    unresolved_detail
change_to_pending source pending runtime m =
    let e = m.executor in
    let resolution = resolve_tool_selection pending e.options in
    elim resolution.kind [
      | ToolSelectionResolutionKind.resolved ↦
          dispatch_tool_change_at_pc source resolution.selection runtime
            (record m { executor = warn_substituted source pending resolution e })
      | ToolSelectionResolutionKind.unresolved ↦ record m {
        executor =
            refuse_change source e.options.unresolved_tool_policy
              (unresolved_detail "tool selection unresolved" resolution.message) e;
      }
      | ToolSelectionResolutionKind.ambiguous ↦ record m {
        executor =
            refuse_change source e.options.ambiguous_tool_policy
              (unresolved_detail "tool selection ambiguous" resolution.message) e;
      }
    ]

-- M6 with neither a pending nor an active tool.
unfoldable pub change_without_tool : SourceInfo → AilExecutor → AilExecutor
unfolding add_fault add_warning next_pc
change_without_tool source e = elim e.options.m6_without_pending_policy [
  | ErrorPolicy.error ↦ add_fault source "M6 requested with no pending or active tool selection" e
  | ErrorPolicy.warning ↦ next_pc (
      add_warning source
        ("M6 requested with no pending or active tool selection" +++ "; ignored by policy") e)
  | ErrorPolicy.ignore ↦ next_pc e
]

-- AilExecutor::handleToolChangeAtPc
unfoldable pub handle_tool_change_at_pc : SourceInfo → Option Runtime → Machine → Machine
unfolding change_to_pending dispatch_tool_change_at_pc change_without_tool
handle_tool_change_at_pc source runtime m = elim m.executor.state.pending_tool_selection [
  | some pending ↦ change_to_pending source pending runtime m
  | none ↦ elim m.executor.state.active_tool_selection [
    | some active ↦ dispatch_tool_change_at_pc source active runtime m
    | none ↦ record m { executor = change_without_tool source m.executor }
  ]
]
