-- ===== src/Session/Input.antt =====
-- src/execution_session.cpp: pushChunk does not depend on how the input is split.
use mathlib.Core.List.{append_assoc}
use experimental_gcode_parse.Prelude.{
  Bytes, Bool, true, false, ◌||◌, ◌≡◌, refl, List, [], ◌∷◌, ◌++◌, inl, inr, Bool-cases, arith,
}
use experimental_gcode_parse.Engine.Lines.{complete_lines}
use experimental_gcode_parse.Engine.Lines.Chunks.{before, complete_lines-append}
use experimental_gcode_parse.Engine.Control.{is_closed}
use experimental_gcode_parse.Session.State.{ExecutionSession, is_cons}
use experimental_gcode_parse.Session.Control.{push_chunk}

-- The session once the lines of a cut buffer are queued.
queue : ExecutionSession → List Bytes × Bytes → ExecutionSession
queue s (lines, rest) = record s {
  editable_lines = s.editable_lines ++ lines;
  input_buffer = rest;
  engine_dirty = s.engine_dirty || is_cons lines;
}

is_cons-append :
    (b : Bool) (ls ms : List Bytes) → (b || is_cons (ls ++ ms)) ≡ ((b || is_cons ls) || is_cons ms)
is_cons-append true ls ms = refl
is_cons-append false [] ms = refl
is_cons-append false (l ∷ ls) ms = refl

queue-before :
    (s : ExecutionSession) (lines : List Bytes) (q : List Bytes × Bytes) (b : Bytes)
    → queue s (before lines q) ≡ queue (queue s (lines, b)) q
unfolding queue
queue-before s lines (more, rest) b =
    ground
      (arith, append_assoc s.editable_lines lines more, is_cons-append s.engine_dirty lines more)

queue_in_two :
    (s : ExecutionSession) (xs bs : Bytes)
    → queue s (complete_lines (xs ++ bs))
      ≡ queue (queue s (complete_lines xs)) (complete_lines ((complete_lines xs).1 ++ bs))
queue_in_two s xs bs = rw (complete_lines-append xs bs) (queue-before s _ _ (complete_lines xs).1)

push_chunk-shut :
    (chunk : Bytes) (s : ExecutionSession)
    → is_closed s.state ≡ true
    → push_chunk chunk s ≡ (s, false)
unfolding push_chunk
push_chunk-shut chunk s h = rw h

push_chunk-queue :
    (chunk : Bytes) (s : ExecutionSession)
    → is_closed s.state ≡ false
    → push_chunk chunk s ≡ (queue s (complete_lines (s.input_buffer ++ chunk)), true)
unfolding push_chunk queue
push_chunk-queue chunk s h = rw h

-- Two chunks given to a session one after the other leave the session that they leave as one chunk,
-- and get the same answer, whatever the chunks and the state of the session.
pub push_chunk-chunks :
    (xs bs : Bytes) (s : ExecutionSession)
    → push_chunk bs (push_chunk xs s).0 ≡ push_chunk (xs ++ bs) s
unfolding queue
push_chunk-chunks xs bs s = elim (Bool-cases (is_closed s.state)) [
  | inl closed ↦ rw (
    push_chunk-shut xs s closed,
    push_chunk-shut bs s closed,
    push_chunk-shut (xs ++ bs) s closed,
  )
  | inr open_ ↦ rw (
    push_chunk-queue xs s open_,
    push_chunk-queue bs (queue s (complete_lines (s.input_buffer ++ xs))) open_,
    push_chunk-queue (xs ++ bs) s open_,
    ← append_assoc s.input_buffer xs bs,
    queue_in_two s (s.input_buffer ++ xs) bs,
  )
]
