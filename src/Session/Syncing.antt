-- ===== src/Session/Syncing.antt =====
-- src/execution_session.cpp: syncEngineWithEditableSuffix hands the engine the editable lines.
use experimental_gcode_parse.Prelude.{
  ℕ, ◌+◌, Bytes, false, ◌≡◌, refl, ap, ◌∙◌, List, [], ◌∷◌, ◌++◌, length, All, ◌==◌, nat_eq, arith,
}
use experimental_gcode_parse.Engine.Lines.{
  newline, strip_cr, put_char, put_newline, cut, strip_all, complete_lines, join_lines,
}
use experimental_gcode_parse.Engine.Control.{number_lines}
use experimental_gcode_parse.Engine.State.{make_engine, import_initial_state}
use experimental_gcode_parse.Session.State.{
  ExecutionSession, sync_engine_with_editable_suffix, rebuild_engine_from_locked_prefix,
}

-- A line of text: no newline in it, and no carriage return at its end.
abbrev pub IsLine : Bytes → Type 0
IsLine line = All (λ (c : ℕ). (c == newline) ≡ false) line × (strip_cr line ≡ line)

cut-newline :
    (line rest : Bytes)
    → All (λ (c : ℕ). (c == newline) ≡ false) line
    → cut (line ++ (newline ∷ rest)) ≡ (line ∷ (cut rest).0, (cut rest).1)
unfolding cut put_char put_newline
cut-newline [] rest h = refl
cut-newline (c ∷ cs) rest (n, h) = rw (n, cut-newline cs rest h) refl

cut-join_lines : (lines : List Bytes) → All IsLine lines → cut (join_lines lines) ≡ (lines, [])
unfolding cut join_lines
cut-join_lines [] h = refl
cut-join_lines (line ∷ lines) ((n, s), h) =
    cut-newline line (join_lines lines) n
    ∙ ap (λ (q : List Bytes × Bytes). (line ∷ q.0, q.1)) (cut-join_lines lines h)

strip_all-lines : (lines : List Bytes) → All IsLine lines → strip_all lines ≡ lines
unfolding strip_all
strip_all-lines [] h = refl
strip_all-lines (line ∷ lines) ((n, s), h) = rw (s, strip_all-lines lines h) refl

complete_lines-join_lines :
    (lines : List Bytes) → All IsLine lines → complete_lines (join_lines lines) ≡ (lines, [])
unfolding complete_lines
complete_lines-join_lines lines h = rw (cut-join_lines lines h, strip_all-lines lines h) refl

-- What the engine is to hold after a synchronisation.
pub record IsSynced (s t : ExecutionSession) : Type 0 where
  pub pending :
      t.engine.pending_lines ≡ number_lines (length s.locked_prefix_lines + 1) s.editable_lines
  pub buffered : t.engine.input_buffer ≡ []
  pub next : t.engine.next_line_number ≡ length s.locked_prefix_lines + 1 + length s.editable_lines
  pub in_flight : t.in_flight_line_count ≡ length s.editable_lines
  pub clean : t.engine_dirty ≡ false

IsSynced-with :
    (s : ExecutionSession) (lines : List Bytes)
    → All IsLine lines
    → IsSynced
        (record s { editable_lines = lines })
        (sync_engine_with_editable_suffix (record s { editable_lines = lines })).0
unfolding sync_engine_with_editable_suffix rebuild_engine_from_locked_prefix make_engine
    import_initial_state number_lines
IsSynced-with s [] h = record {
  pending = refl;
  buffered = refl;
  next = ground arith;
  in_flight = refl;
  clean = refl;
}
IsSynced-with s (line ∷ lines) ((n, c), h) =
    rw (cut-join_lines (line ∷ lines) ((n, c), h), c, strip_all-lines lines h)
      (record { pending = refl; buffered = refl; next = refl; in_flight = refl; clean = refl })

-- The session's editable lines, joined to one text and cut again by the new engine, are the engine's
-- pending lines, numbered on from the locked prefix, all of them are in flight, and nothing is left
-- in the engine's buffer. The editable lines are lines of text.
pub sync-IsSynced :
    (s : ExecutionSession)
    → All IsLine s.editable_lines
    → IsSynced s (sync_engine_with_editable_suffix s).0
sync-IsSynced s h = IsSynced-with s s.editable_lines h
