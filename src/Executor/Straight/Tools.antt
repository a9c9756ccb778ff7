-- ===== src/Executor/Straight/Tools.antt =====
-- src/ail.cpp: T and M6 move the program counter on by one, stop or wait.
use experimental_gcode_parse.Prelude.{String, refl, ◌∷◌, Option, none, some, arith, if_either}
use experimental_gcode_parse.Lowering.{SourceInfo, ErrorPolicy}
use experimental_gcode_parse.Ail.{ToolSelectionState, ToolSelectionResolution, ToolSelect}
use experimental_gcode_parse.Runtime.{WaitToken, RuntimeResult}
use experimental_gcode_parse.Host.{Event, Runtime}
use experimental_gcode_parse.Executor.State.{AilExecutor, Machine, next_pc}
use experimental_gcode_parse.Executor.Tools.{
  complete_tool_change, after_tool_change, tool_change_command, resolve_tool_selection,
  dispatch_tool_change_at_pc, warn_substituted, refuse_selection, refuse_change,
  handle_tool_select_at_pc, change_to_pending, change_without_tool, handle_tool_change_at_pc,
  set_pending,
}
use experimental_gcode_parse.Executor.Straight.{IsAtWork, Moves, IsSame, Moves-from}

pub after_tool_change-Moves :
    (source : SourceInfo) (target : ToolSelectionState) (result : RuntimeResult WaitToken)
    (e : AilExecutor)
    → IsAtWork e
    → Moves e (after_tool_change source target result e)
unfolding after_tool_change
after_tool_change-Moves source target result e (s, b, c) = record {
  same = ground arith;
  frames = ground arith;
  further = λ h. ground (arith, h);
  unblocked = λ h. ground (arith, b, h);
  untimed = λ x h. ground (arith, b, h);
}

pub deferred :
    (o : Option ToolSelectionState) (e : AilExecutor)
    → IsAtWork e
    → Moves e (next_pc (set_pending o e))
unfolding next_pc set_pending
deferred o e (s, b, c) = record {
  same = refl;
  frames = refl;
  further = λ h. refl;
  unblocked = λ h. b;
  untimed = λ x h. absurd (ground (arith, b, h));
}

pub dispatch_tool_change-Moves :
    (source : SourceInfo) (target : ToolSelectionState) (runtime : Option Runtime) (m : Machine)
    → IsAtWork m.executor
    → Moves m.executor (dispatch_tool_change_at_pc source target runtime m).executor
unfolding dispatch_tool_change_at_pc complete_tool_change
dispatch_tool_change-Moves source target none m (s, b, c) = record {
  same = refl;
  frames = refl;
  further = λ h. refl;
  unblocked = λ h. b;
  untimed = λ x h. absurd (ground (arith, b, h));
}
dispatch_tool_change-Moves source target (some runtime) m w =
    let cmd = tool_change_command source target m.executor in
    after_tool_change-Moves source target
      (runtime.submit_tool_change (Event.tool_change cmd ∷ m.trace) cmd) m.executor w

pub warn_substituted-IsSame :
    (source : SourceInfo) (requested : ToolSelectionState) (resolution : ToolSelectionResolution)
    (e : AilExecutor)
    → IsSame e (warn_substituted source requested resolution e)
unfolding warn_substituted
warn_substituted-IsSame source requested resolution e =
    if_either {A = AilExecutor} (λ f. IsSame e f) resolution.substituted
      (record { same = refl; frames = refl; here = refl; status = refl; blocked = refl })
      (record { same = refl; frames = refl; here = refl; status = refl; blocked = refl })

pub set_pending-IsSame :
    (o : Option ToolSelectionState) {e f : AilExecutor} → IsSame e f → IsSame e (set_pending o f)
unfolding set_pending
set_pending-IsSame o v = record {
  same = v.same;
  frames = v.frames;
  here = v.here;
  status = v.status;
  blocked = v.blocked;
}

pub refuse_selection-Moves :
    (source : SourceInfo) (policy : ErrorPolicy) (detail : String) (e : AilExecutor)
    → IsAtWork e
    → Moves e (refuse_selection source policy detail e)
unfolding refuse_selection
refuse_selection-Moves source policy detail e (s, b, c) = record {
  same = ground arith;
  frames = ground arith;
  further = λ h. ground (arith, h);
  unblocked = λ h. ground (arith, b, h);
  untimed = λ x h. ground (arith, b, h);
}

pub refuse_change-Moves :
    (source : SourceInfo) (policy : ErrorPolicy) (detail : String) (e : AilExecutor)
    → IsAtWork e
    → Moves e (refuse_change source policy detail e)
unfolding refuse_change
refuse_change-Moves source policy detail e (s, b, c) = record {
  same = ground arith;
  frames = ground arith;
  further = λ h. ground (arith, h);
  unblocked = λ h. ground (arith, b, h);
  untimed = λ x h. ground (arith, b, h);
}

pub change_without_tool-Moves :
    (source : SourceInfo) (e : AilExecutor) → IsAtWork e → Moves e (change_without_tool source e)
unfolding change_without_tool
change_without_tool-Moves source e (s, b, c) = record {
  same = ground arith;
  frames = ground arith;
  further = λ h. ground (arith, h);
  unblocked = λ h. ground (arith, b, h);
  untimed = λ x h. ground (arith, b, h);
}

pub change_to_pending-Moves :
    (source : SourceInfo) (pending : ToolSelectionState) (runtime : Option Runtime) (m : Machine)
    → IsAtWork m.executor
    → Moves m.executor (change_to_pending source pending runtime m).executor
unfolding change_to_pending
change_to_pending-Moves source pending runtime m w =
    let resolution = resolve_tool_selection pending m.executor.options in
    let warned = warn_substituted source pending resolution m.executor in
    ground (
      arith,
      Moves-from (warn_substituted-IsSame source pending resolution m.executor)
          (dispatch_tool_change-Moves source resolution.selection runtime
            (record m { executor = warned }))
          w,
      λ (policy : ErrorPolicy) (detail : String).
          refuse_change-Moves source policy detail m.executor w,
    )

pub handle_tool_change-Moves :
    (source : SourceInfo) (runtime : Option Runtime) (m : Machine)
    → IsAtWork m.executor
    → Moves m.executor (handle_tool_change_at_pc source runtime m).executor
unfolding handle_tool_change_at_pc
handle_tool_change-Moves source runtime m w = ground (
  arith,
  λ (t : ToolSelectionState). change_to_pending-Moves source t runtime m w,
  λ (t : ToolSelectionState). dispatch_tool_change-Moves source t runtime m w,
  change_without_tool-Moves source m.executor w,
)

pub handle_tool_select-Moves :
    (inst : ToolSelect) (runtime : Option Runtime) (m : Machine)
    → IsAtWork m.executor
    → Moves m.executor (handle_tool_select_at_pc inst runtime m).executor
unfolding handle_tool_select_at_pc
handle_tool_select-Moves inst runtime m w =
    let requested : ToolSelectionState = record {
      selector_index = inst.selector_index;
      selector_value = inst.selector_value;
    } in
    let e = m.executor in
    let resolution = resolve_tool_selection requested e.options in
    ground (
      arith,
      deferred (some requested) e w,
      Moves-from
          (set_pending-IsSame none (warn_substituted-IsSame inst.source requested resolution e))
          (dispatch_tool_change-Moves inst.source resolution.selection runtime (record m {
            executor = set_pending none (warn_substituted inst.source requested resolution e);
          }))
          w,
      λ (policy : ErrorPolicy) (detail : String).
          refuse_selection-Moves inst.source policy detail e w,
    )
