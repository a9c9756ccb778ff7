-- ===== src/Session/Rejection.antt =====
-- src/execution_session.cpp: a rejected line and its replacement.
use mathlib.Core.List.{append-nil}
use experimental_gcode_parse.Prelude.{
  drop, sym, ℕ, ◌+◌, ◌-◌, ◌≤◌, ◌<◌, min, Bytes, Bool, true, false, ◌≡◌, refl, ap, List, [], ◌∷◌,
  ◌++◌, length, take, length-append, length-take, none, some, ltb, Bool-cases, inl, inr, arith,
  if◌then◌else◌,
}
use experimental_gcode_parse.Runtime.{EngineState, RejectedState, StepStatus, StepResult}
use experimental_gcode_parse.Engine.Lines.{complete_lines}
use experimental_gcode_parse.Engine.State.{export_initial_state}
use experimental_gcode_parse.Session.State.{
  ExecutionSession, commit_accepted_editable_prefix, append_replacement_text, enqueue_from_buffer,
  flush_session_buffer, rebuild_engine_from_locked_prefix,
}
use experimental_gcode_parse.Session.Control.{
  commit_before_rejection, run_engine_step, replace_editable_suffix, is_rejected,
}

abbrev pub rejection_of : RejectedState → StepResult
rejection_of rejected = record {
  status = StepStatus.rejected;
  blocked = none;
  rejected = some rejected;
  fault = none;
}

commit_within :
    (n : ℕ) (s : ExecutionSession)
    → n ≤ length s.editable_lines
    → ((commit_accepted_editable_prefix n s).locked_prefix_lines
        ≡ s.locked_prefix_lines ++ take n s.editable_lines)
      × ((commit_accepted_editable_prefix n s).editable_lines ≡ drop n s.editable_lines)
unfolding commit_accepted_editable_prefix
commit_within n s h =
    let m : min n (length s.editable_lines) ≡ n = omega arith in (rw (m) refl, rw (m) refl)

-- The first session with its first `n` editable lines locked, in their order.
abbrev pub Locks : ℕ → ExecutionSession → ExecutionSession → Type 0
Locks n s t =
    (t.locked_prefix_lines ≡ s.locked_prefix_lines ++ take n s.editable_lines)
    × (t.editable_lines ≡ drop n s.editable_lines)

before_rejection-Locks :
    (rejected : RejectedState) (s : ExecutionSession)
    → rejected.source.line ≤ length s.locked_prefix_lines + length s.editable_lines
    → Locks
        (rejected.source.line - 1 - length s.locked_prefix_lines)
        s
        (commit_before_rejection (some rejected) s)
unfolding commit_before_rejection
before_rejection-Locks rejected s within =
    let n = rejected.source.line - 1 - length s.locked_prefix_lines in
    elim (Bool-cases (ltb 0 n)) [
      | inl e ↦ rw e (commit_within n s (omega arith))
      | inr e ↦
          let z : n ≡ 0 = ground arith in rw e (rw z (sym (append-nil s.locked_prefix_lines), refl))
    ]

-- When the engine rejects a line of the editable suffix, exactly the lines before it are locked:
-- they stand behind the lines locked before, in their order, the rejected line has its number and is
-- the first editable one, and the lines behind it follow. The session is rejected, keeps the reason,
-- and has no line in flight. The number of the rejected line is one of those that the engine was
-- given.
pub run_engine_step-rejected :
    (rejected : RejectedState) (s : ExecutionSession)
    → length s.locked_prefix_lines < rejected.source.line
    → rejected.source.line ≤ length s.locked_prefix_lines + length s.editable_lines
    → let t = run_engine_step (rejection_of rejected) s in
      Locks (rejected.source.line - 1 - length s.locked_prefix_lines) s t
      × (length t.locked_prefix_lines + 1 ≡ rejected.source.line)
      × (t.state ≡ EngineState.rejected)
      × (t.rejected ≡ some rejected)
      × (t.in_flight_line_count ≡ 0)
unfolding run_engine_step
run_engine_step-rejected rejected s above within =
    let n = rejected.source.line - 1 - length s.locked_prefix_lines in
    let l = before_rejection-Locks rejected (record s { rejected = some rejected }) within in
    let count : length (s.locked_prefix_lines ++ take n s.editable_lines) + 1
        ≡ rejected.source.line =
      omega (
        arith,
        length-append s.locked_prefix_lines (take n s.editable_lines),
        length-take n s.editable_lines,
      ) in
    (l, rw (l.0) count, refl, ground arith, refl)

-- The editable lines and the buffer that a replacement text leaves: its complete lines, and the
-- rest as a last line where the input has ended.
abbrev pub replacement : Bool → List Bytes × Bytes → List Bytes × Bytes
replacement true (lines, c ∷ cs) = (lines ++ (c ∷ cs) ∷ [], [])
replacement true (lines, []) = (lines, [])
replacement false (lines, rest) = (lines, rest)

abbrev cleared : ExecutionSession → ExecutionSession
cleared s = record s { editable_lines = []; input_buffer = [] }

flushed_lines :
    (finished : Bool) (lines : List Bytes) (rest : Bytes) (s : ExecutionSession)
    → s.editable_lines ≡ lines
    → s.input_buffer ≡ rest
    → let t = (if finished then flush_session_buffer rest s else s) in
      (t.editable_lines ≡ (replacement finished (lines, rest)).0)
      × (t.input_buffer ≡ (replacement finished (lines, rest)).1)
      × (t.locked_prefix_lines ≡ s.locked_prefix_lines)
      × (t.prefix_state ≡ s.prefix_state)
unfolding flush_session_buffer
flushed_lines true lines [] s e b = (e, b, refl, refl)
flushed_lines true lines (c ∷ cs) s e b = (rw e, refl, refl, refl)
flushed_lines false lines rest s e b = (e, b, refl, refl)

replaced_lines :
    (text : Bytes) (s : ExecutionSession)
    → let t = append_replacement_text text (cleared s) in
      (t.editable_lines ≡ (replacement s.input_finished (complete_lines text)).0)
      × (t.input_buffer ≡ (replacement s.input_finished (complete_lines text)).1)
      × (t.locked_prefix_lines ≡ s.locked_prefix_lines)
      × (t.prefix_state ≡ s.prefix_state)
unfolding append_replacement_text enqueue_from_buffer
replaced_lines text s =
    flushed_lines s.input_finished (complete_lines text).0 (complete_lines text).1 _ refl refl

-- A session after a replacement: the locked lines stay, the editable ones are exactly the lines of
-- the new text, the rejection is forgotten, and a new engine starts behind the locked lines with the
-- modal state that they left.
pub record IsReplacedBy (text : Bytes) (s t : ExecutionSession) : Type 0 where
  pub locked : t.locked_prefix_lines ≡ s.locked_prefix_lines
  pub editable : t.editable_lines ≡ (replacement s.input_finished (complete_lines text)).0
  pub buffer : t.input_buffer ≡ (replacement s.input_finished (complete_lines text)).1
  pub forgotten : t.rejected ≡ none
  pub accepting : t.state ≡ EngineState.accepting_input
  pub dirty : t.engine_dirty ≡ true
  pub numbered : t.engine.next_line_number ≡ length s.locked_prefix_lines + 1
  pub modal :
      export_initial_state t.engine ≡ record s.prefix_state { selected_tool_selection = none }

accepted : Bytes → ExecutionSession → ExecutionSession
unfolding append_replacement_text rebuild_engine_from_locked_prefix
accepted text s =
    let rebuilt =
      rebuild_engine_from_locked_prefix
        (record (append_replacement_text text (cleared s)) { rejected = none }) in
    record rebuilt { engine_dirty = true; state = EngineState.accepting_input }

accepted-IsReplacedBy :
    (text : Bytes) (s : ExecutionSession) → IsReplacedBy text s (accepted text s)
unfolding accepted export_initial_state
accepted-IsReplacedBy text s =
    let (e, b, l, p) = replaced_lines text s in
    record {
      locked = l;
      editable = e;
      buffer = b;
      forgotten = refl;
      accepting = refl;
      dirty = refl;
      numbered = rw l;
      modal = rw p;
    }

replace_when_rejected :
    (text : Bytes) (s : ExecutionSession)
    → is_rejected s.state ≡ true
    → replace_editable_suffix text s ≡ (accepted text s, true)
unfolding replace_editable_suffix accepted
replace_when_rejected text s h = rw h

-- A replacement is taken in the rejected state, and leaves a session that is replaced by the text
-- in the sense above.
pub replace_editable_suffix-IsReplacedBy :
    (text : Bytes) (s : ExecutionSession)
    → s.state ≡ EngineState.rejected
    → ((replace_editable_suffix text s).1 ≡ true)
      × IsReplacedBy text s (replace_editable_suffix text s).0
unfolding is_rejected
replace_editable_suffix-IsReplacedBy text s h =
    rw (replace_when_rejected text s (ap is_rejected h)) (refl, accepted-IsReplacedBy text s)
