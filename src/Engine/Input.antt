-- ===== src/Engine/Input.antt =====
-- src/streaming_execution_engine.cpp: pushChunk does not depend on how the input is split.
use mathlib.Core.List.{append_assoc}
use native.Mathlib.Nat.{add_assoc}
use experimental_gcode_parse.Prelude.{
  ℕ, suc, ◌+◌, Bytes, true, false, ◌≡◌, List, [], ◌∷◌, ◌++◌, length, length-append, inl, inr,
  Bool-cases, arith,
}
use experimental_gcode_parse.Engine.Lines.{complete_lines}
use experimental_gcode_parse.Engine.Lines.Chunks.{before, complete_lines-append}
use experimental_gcode_parse.Engine.State.{StreamingExecutionEngine}
use experimental_gcode_parse.Engine.Control.{number_lines, push_chunk, is_closed}

number_lines-append :
    (n : ℕ) (ls ms : List Bytes)
    → number_lines n (ls ++ ms) ≡ number_lines n ls ++ number_lines (n + length ls) ms
unfolding number_lines
number_lines-append n [] ms = ground arith
number_lines-append n (l ∷ ls) ms = ground (arith, number_lines-append (suc n) ls ms)

-- The engine once the lines of a cut buffer are queued.
queue : StreamingExecutionEngine → List Bytes × Bytes → StreamingExecutionEngine
queue e (lines, rest) = record e {
  pending_lines = e.pending_lines ++ number_lines e.next_line_number lines;
  next_line_number = e.next_line_number + length lines;
  input_buffer = rest;
}

queue-before :
    (e : StreamingExecutionEngine) (lines : List Bytes) (q : List Bytes × Bytes) (b : Bytes)
    → queue e (before lines q) ≡ queue (queue e (lines, b)) q
unfolding queue
queue-before e lines (more, rest) b = ground (
  arith,
  number_lines-append e.next_line_number lines more,
  length-append lines more,
  append_assoc e.pending_lines (number_lines e.next_line_number lines)
      (number_lines (e.next_line_number + length lines) more),
  add_assoc e.next_line_number (length lines) (length more),
)

queue-append :
    (e : StreamingExecutionEngine) (xs bs : Bytes)
    → queue e (complete_lines (xs ++ bs))
      ≡ queue (queue e (complete_lines xs)) (complete_lines ((complete_lines xs).1 ++ bs))
queue-append e xs bs = rw (complete_lines-append xs bs) (queue-before e _ _ (complete_lines xs).1)

push_chunk-closed :
    (chunk : Bytes) (e : StreamingExecutionEngine)
    → is_closed e.state ≡ true
    → push_chunk chunk e ≡ (e, false)
unfolding push_chunk
push_chunk-closed chunk e h = rw h

push_chunk-open :
    (chunk : Bytes) (e : StreamingExecutionEngine)
    → is_closed e.state ≡ false
    → push_chunk chunk e ≡ (queue e (complete_lines (e.input_buffer ++ chunk)), true)
unfolding push_chunk queue
push_chunk-open chunk e h = rw h

push_chunk_twice :
    (xs bs : Bytes) (e : StreamingExecutionEngine)
    → is_closed e.state ≡ false
    → push_chunk bs (push_chunk xs e).0 ≡ push_chunk (xs ++ bs) e
unfolding queue
push_chunk_twice xs bs e h = rw (
  push_chunk-open xs e h,
  push_chunk-open bs (queue e (complete_lines (e.input_buffer ++ xs))) h,
  push_chunk-open (xs ++ bs) e h,
  ← append_assoc e.input_buffer xs bs,
  queue-append e (e.input_buffer ++ xs) bs,
)

-- Pushing two chunks one after the other leaves the engine that pushing them as one chunk leaves,
-- and answers the same, whatever the chunks and the state of the engine.
pub push_chunk-append :
    (xs bs : Bytes) (e : StreamingExecutionEngine)
    → push_chunk bs (push_chunk xs e).0 ≡ push_chunk (xs ++ bs) e
push_chunk-append xs bs e = elim (Bool-cases (is_closed e.state)) [
  | inl closed ↦ rw (
    push_chunk-closed xs e closed,
    push_chunk-closed bs e closed,
    push_chunk-closed (xs ++ bs) e closed,
  )
  | inr open_ ↦ push_chunk_twice xs bs e open_
]
