-- ===== src/Executor/Invariant/Basic.antt =====
-- The small changes that the handlers of src/ail.cpp are made of keep the invariant.
use experimental_gcode_parse.Prelude.{ℕ, String, ◌≤◌, ◌<◌, length, Option, none, arith}
use experimental_gcode_parse.Ail.{ToolSelectionState}
use experimental_gcode_parse.Lowering.{SourceInfo}
use experimental_gcode_parse.Runtime.{WaitToken, RuntimeResult}
use experimental_gcode_parse.Executor.State.{
  AilExecutor, ExecutorBlockedState, add_fault, add_warning, next_pc, jump_to, block_on,
}
use experimental_gcode_parse.Executor.Tools.{
  set_pending, set_selected, complete_tool_change, after_tool_change, apply_resolved_tool_selection,
}
use experimental_gcode_parse.Executor.Invariant.{IsValid, IsRunning}

module _ {e : AilExecutor} (v : IsRunning e) where
  pub next_pc-IsValid : IsValid (next_pc e)
  unfolding next_pc
  next_pc-IsValid = record {
    indexed = v.indexed;
    frames = v.frames;
    depth = v.depth;
    controlled = ground arith;
  }

  pub jump_to-IsValid : (target : ℕ) → target < length e.instructions → IsValid (jump_to target e)
  unfolding jump_to
  jump_to-IsValid target h = record {
    indexed = v.indexed;
    frames = v.frames;
    depth = v.depth;
    controlled = ground arith;
  }

  pub add_fault-IsValid :
      (source : SourceInfo) (message : String) → IsValid (add_fault source message e)
  unfolding add_fault
  add_fault-IsValid source message = record {
    indexed = v.indexed;
    frames = v.frames;
    depth = v.depth;
    controlled = ground arith;
  }

  pub block_on-IsValid :
      (suspension : ExecutorBlockedState)
      → suspension.instruction_index ≤ length e.instructions
      → IsValid (block_on suspension e)
  unfolding block_on
  block_on-IsValid suspension h = record {
    indexed = v.indexed;
    frames = v.frames;
    depth = v.depth;
    controlled = ground arith;
  }

  pub add_warning-IsRunning :
      (source : SourceInfo) (message : String) → IsRunning (add_warning source message e)
  unfolding add_warning
  add_warning-IsRunning source message = record {
    indexed = v.indexed;
    frames = v.frames;
    depth = v.depth;
    pc_lt = v.pc_lt;
    ready = v.ready;
    not_blocked = v.not_blocked;
    not_faulted = v.not_faulted;
  }

  pub set_pending-IsRunning :
      (selection : Option ToolSelectionState) → IsRunning (set_pending selection e)
  unfolding set_pending
  set_pending-IsRunning selection = record {
    indexed = v.indexed;
    frames = v.frames;
    depth = v.depth;
    pc_lt = v.pc_lt;
    ready = v.ready;
    not_blocked = v.not_blocked;
    not_faulted = v.not_faulted;
  }

  pub set_selected-IsRunning :
      (selection : Option ToolSelectionState) → IsRunning (set_selected selection e)
  unfolding set_selected
  set_selected-IsRunning selection = record {
    indexed = v.indexed;
    frames = v.frames;
    depth = v.depth;
    pc_lt = v.pc_lt;
    ready = v.ready;
    not_blocked = v.not_blocked;
    not_faulted = v.not_faulted;
  }

  pub apply_resolved-IsRunning :
      (selection : ToolSelectionState) → IsRunning (apply_resolved_tool_selection selection e)
  unfolding apply_resolved_tool_selection
  apply_resolved-IsRunning selection = record {
    indexed = v.indexed;
    frames = v.frames;
    depth = v.depth;
    pc_lt = v.pc_lt;
    ready = v.ready;
    not_blocked = v.not_blocked;
    not_faulted = v.not_faulted;
  }

pub set_pending-IsValid :
    {e : AilExecutor} (selection : Option ToolSelectionState)
    → IsValid e
    → IsValid (set_pending selection e)
unfolding set_pending
set_pending-IsValid selection v = record {
  indexed = v.indexed;
  frames = v.frames;
  depth = v.depth;
  controlled = record { pc_le = v.controlled.pc_le; agrees = v.controlled.agrees };
}

pub complete_tool_change-IsValid :
    {e : AilExecutor} (target : ToolSelectionState)
    → IsRunning e
    → IsValid (complete_tool_change target e)
unfolding complete_tool_change
complete_tool_change-IsValid target v =
    next_pc-IsValid
      (set_selected-IsRunning (set_pending-IsRunning (apply_resolved-IsRunning v target) none) none)

pub after_tool_change-IsValid :
    (source : SourceInfo) (target : ToolSelectionState) (result : RuntimeResult WaitToken)
    {e : AilExecutor}
    → IsRunning e
    → IsValid (after_tool_change source target result e)
unfolding after_tool_change
after_tool_change-IsValid source target result {e} v =
    ground (
      arith,
      complete_tool_change-IsValid target v,
      add_fault-IsValid v source result.error_message,
    )
