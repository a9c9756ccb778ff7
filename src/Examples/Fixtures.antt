-- ===== src/Examples/Fixtures.antt =====
-- Small programs and hosts that the examples run on.
use experimental_gcode_parse.Prelude.{
  ℕ, String, Bytes, true, false, List, [], ◌∷◌, none, some, ◌+◌, ◌-◌, ◌*◌, ◌/◌, nat_beq, ltb, leb,
  not,
}
use experimental_gcode_parse.Floats.{Double, FloatOps}
use experimental_gcode_parse.Lowering.{SourceInfo, Pose6, ModalState, ModalGroupId, LowerOptions}
use experimental_gcode_parse.Ail.{
  AilInstruction, AilResult, Goto, no_refs, linear_move, label, goto_, ToolSelectionState,
}
use experimental_gcode_parse.Runtime.{
  WaitToken, RuntimeResult, RuntimeCallStatus, ConditionResolutionKind,
}
use experimental_gcode_parse.Host.{Runtime, Host, ConditionResolver}
use experimental_gcode_parse.Engine.Advance.{EngineRuntime}

-- Natural numbers in place of patterns of doubles.
abbrev pub ops : FloatOps
ops = record {
  add = λ a b. a + b;
  sub = λ a b. a - b;
  mul = λ a b. a * b;
  div = λ a b. a / b;
  neg = λ a. a;
  eq = nat_beq;
  ne = λ a b. not (nat_beq a b);
  lt = ltb;
  le = leb;
}

abbrev pub at_line : ℕ → SourceInfo
at_line n = record { filename = none; line = n; line_number = none }

abbrev pub nowhere : Pose6
nowhere = record { x = none; y = none; z = none; a = none; b = none; c = none }

abbrev pub motion_state : ModalState
motion_state = record { group = ModalGroupId.motion; code = "G1"; updates_state = true }

abbrev pub move_x : ℕ → Double → AilInstruction
move_x line v = linear_move (record {
  source = at_line line;
  modal = motion_state;
  opcode = "G1";
  target_pose = record nowhere { x = some v };
  target_system_variables = no_refs;
  feed = none;
  rapid_mode_effective = none;
})

abbrev pub goto_label : String → String → Goto
goto_label opcode target = record {
  source = at_line 2;
  opcode = opcode;
  target = target;
  target_kind = "label";
}

-- A move, a jump back to it over a label, and a label behind.
abbrev pub looping : List AilInstruction
looping =
    label (at_line 1) "TOP"
    ∷ goto_ (goto_label "GOTOB" "TOP")
    ∷ move_x 3 7
    ∷ label (at_line 4) "END"
    ∷ label (at_line 5) "END"
    ∷ []

abbrev pub token : WaitToken
token = record { kind = "motion"; id = "line-1" }

abbrev pub pending : WaitToken → RuntimeResult WaitToken
pending t = record {
  status = RuntimeCallStatus.pending;
  value = none;
  wait_token = some t;
  error_message = "";
}

abbrev pub ready : RuntimeResult WaitToken
ready = record {
  status = RuntimeCallStatus.ready;
  value = none;
  wait_token = none;
  error_message = "";
}

abbrev pub unreadable : RuntimeResult Double
unreadable = record {
  status = RuntimeCallStatus.error;
  value = none;
  wait_token = none;
  error_message = "";
}

-- A machine that answers every submission with the same result.
abbrev pub machine_with : RuntimeResult WaitToken → Runtime
machine_with result = record {
  submit_linear_move = λ trace cmd. result;
  submit_arc_move = λ trace cmd. result;
  submit_dwell = λ trace cmd. result;
  submit_tool_change = λ trace cmd. result;
  read_system_variable = λ trace source name. unreadable;
}

abbrev pub no_conditions : ConditionResolver
no_conditions trace condition source = record {
  kind = ConditionResolutionKind.error;
  wait_token = none;
  retry_at_ms = none;
  error_message = none;
}

abbrev pub host : Host
host = record { resolver = no_conditions; runtime = some (machine_with ready) }

abbrev pub engine_runtime : RuntimeResult WaitToken → EngineRuntime
engine_runtime result = record { runtime = machine_with result; execution_resolver = none }

abbrev pub options : LowerOptions
options = record {
  filename = none;
  active_skip_levels = [];
  tool_change_mode = none;
  enable_iso_m98_calls = false;
}

-- Every program text becomes two moves.
abbrev pub two_moves : Bytes → LowerOptions → AilResult
two_moves text o = record {
  instructions = move_x 1 1 ∷ move_x 2 2 ∷ [];
  diagnostics = [];
  rejected_lines = [];
}

abbrev pub tool_7 : ToolSelectionState
tool_7 = record { selector_index = none; selector_value = "7" }
