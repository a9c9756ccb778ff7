-- ===== src/Session/State.antt =====
-- include/gcode/execution_session.h: the state of a session, and the functions of
-- src/execution_session.cpp that move lines between its parts.
use experimental_gcode_parse.Prelude.{
  ℕ, ◌+◌, ◌-◌, Bytes, Bool, true, false, ◌||◌, List, [], ◌∷◌, ◌++◌, length, take, drop, min, Option,
  none, leb, if◌then◌else◌,
}
use experimental_gcode_parse.Lowering.{LowerOptions}
use experimental_gcode_parse.Runtime.{EngineState, RejectedState}
use experimental_gcode_parse.Host.{Trace}
use experimental_gcode_parse.Executor.State.{AilExecutorInitialState}
use experimental_gcode_parse.Engine.Lines.{complete_lines, join_lines}
use experimental_gcode_parse.Engine.State.{
  StreamingExecutionEngine, make_engine, export_initial_state, import_initial_state,
}
use experimental_gcode_parse.Engine.Control.{push_chunk}

pub record ExecutionSession : Type 0 where
  pub options : LowerOptions
  pub engine : StreamingExecutionEngine
  pub locked_prefix_lines : List Bytes
  pub editable_lines : List Bytes
  pub input_buffer : Bytes
  pub input_finished : Bool
  pub engine_dirty : Bool
  pub state : EngineState
  pub rejected : Option RejectedState
  pub prefix_state : AilExecutorInitialState
  pub in_flight_line_count : ℕ

-- The session together with what its engines have reported and asked so far.
pub record SessionRun : Type 0 where
  pub session : ExecutionSession
  pub trace : Trace

unfoldable pub make_session : LowerOptions → ExecutionSession
unfolding make_engine export_initial_state
make_session options = record {
  options = options;
  engine = make_engine options;
  locked_prefix_lines = [];
  editable_lines = [];
  input_buffer = [];
  input_finished = false;
  engine_dirty = false;
  state = EngineState.accepting_input;
  rejected = none;
  prefix_state = export_initial_state (make_engine options);
  in_flight_line_count = 0;
}

abbrev pub is_cons {ℓ} : {A : Type ℓ} → List A → Bool
is_cons [] = false
is_cons (x ∷ xs) = true

-- enqueueCompleteLinesFromBuffer
unfoldable pub enqueue_from_buffer : ExecutionSession → ExecutionSession
unfolding complete_lines
enqueue_from_buffer s =
    let (lines, rest) = complete_lines s.input_buffer in
    record s {
      editable_lines = s.editable_lines ++ lines;
      input_buffer = rest;
      engine_dirty = s.engine_dirty || is_cons lines;
    }

-- The rest of the buffer becomes a last editable line.
unfoldable pub flush_session_buffer : Bytes → ExecutionSession → ExecutionSession
flush_session_buffer [] s = s
flush_session_buffer (c ∷ cs) s = record s {
  editable_lines = s.editable_lines ++ (c ∷ cs) ∷ [];
  input_buffer = [];
  engine_dirty = true;
}

-- appendReplacementText
unfoldable pub append_replacement_text : Bytes → ExecutionSession → ExecutionSession
unfolding enqueue_from_buffer flush_session_buffer
append_replacement_text text s =
    let queued = enqueue_from_buffer (record s { input_buffer = s.input_buffer ++ text }) in
    if queued.input_finished then flush_session_buffer queued.input_buffer queued else queued

-- rebuildEngineFromLockedPrefix
unfoldable pub rebuild_engine_from_locked_prefix : ExecutionSession → ExecutionSession
unfolding make_engine import_initial_state
rebuild_engine_from_locked_prefix s = record s {
  engine =
      import_initial_state s.prefix_state (length s.locked_prefix_lines + 1)
        (make_engine s.options);
  engine_dirty = false;
  in_flight_line_count = 0;
}

-- syncEngineWithEditableSuffix; the engine is new, so it takes the chunk.
unfoldable pub sync_engine_with_editable_suffix : ExecutionSession → ExecutionSession × Bool
unfolding rebuild_engine_from_locked_prefix push_chunk join_lines
sync_engine_with_editable_suffix s =
    let rebuilt = rebuild_engine_from_locked_prefix s in
    elim rebuilt.editable_lines [
      | [] ↦ (rebuilt, true)
      | line ∷ lines ↦
          let (engine, taken) = push_chunk (join_lines (line ∷ lines)) rebuilt.engine in
          (record rebuilt { engine = engine; in_flight_line_count = length (line ∷ lines) }, taken)
    ]

-- commitAcceptedEditablePrefix
unfoldable pub commit_accepted_editable_prefix : ℕ → ExecutionSession → ExecutionSession
unfolding export_initial_state
commit_accepted_editable_prefix line_count s =
    let accepted = min line_count (length s.editable_lines) in
    record s {
      locked_prefix_lines = s.locked_prefix_lines ++ take accepted s.editable_lines;
      editable_lines = drop accepted s.editable_lines;
      prefix_state = export_initial_state s.engine;
      in_flight_line_count =
          if leb accepted s.in_flight_line_count then s.in_flight_line_count - accepted else 0;
      engine_dirty = is_cons (drop accepted s.editable_lines);
    }
