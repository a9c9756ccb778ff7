-- ===== src/Messages/Rounds.antt =====
-- One round of the stream against one round of the batch, with all callbacks set and no limit.
use mathlib.Core.Path.{subst}
use mathlib.Core.List.{append-nil}
use experimental_gcode_parse.Prelude.{
  ℕ, suc, true, false, List, [], ◌∷◌, ◌++◌, Option, none, some, ◌≡◌, refl, All, ap, ◌∙◌, sym,
  Bool-cases, inl, inr,
}
use experimental_gcode_parse.Floats.{FloatText}
use experimental_gcode_parse.Ast.{Diagnostic, Line}
use experimental_gcode_parse.Lowering.{LowerOptions, line_has_error, should_skip_line, value_or}
use experimental_gcode_parse.Ail.{WorkingPlane}
use experimental_gcode_parse.Messages.Words.{
  collect_line_errors, validate_arc_plane_words, MotionScan, no_motion, scan_motion,
}
use experimental_gcode_parse.Messages.Family.{MotionFamilyLowerer, find_lowerer}
use experimental_gcode_parse.Messages.Batch.{
  BatchState, lower_with, lower_motion, lower_arc, lower_checked_arc, lower_scanned,
  lower_message_line, is_arc_code,
}
use experimental_gcode_parse.Messages.Callbacks.{
  message, StreamState, exceeds, stop_check, check_stop, report, emit_plane_diagnostics, any_error,
}
use experimental_gcode_parse.Messages.Stream.{
  set_plane, stream_with, stream_motion, stream_arc, stream_checked_arc, stream_scanned,
  stream_checked, stream_line,
}
use experimental_gcode_parse.Messages.Errors.{
  IsLocated, collect-append, line_has_error-collect, collect-ErrorAt, any_error-ErrorAt,
  validate-ErrorAt, find_lowerer-Harmless, ErrorAt,
}
use experimental_gcode_parse.Messages.Events.{
  all_callbacks, no_limits, messages_of-append, diagnostics_of-append, rejections_of-append, Agrees,
  AddsDiagnostics, plane_diagnostics-Adds, lowering_diagnostics-Adds, IsRunning, Matches, goes_on,
  reject-Matches,
}

is_nil : (ds : List Diagnostic) → elim ds [ [] ↦ false | d ∷ more ↦ true ] ≡ false → ds ≡ []
is_nil [] e = refl
is_nil (d ∷ ds) e = absurd (cc)

-- More diagnostics on both sides.
Agrees-Adds :
    (ds : List Diagnostic) (b : BatchState) (s t : StreamState)
    → Agrees b s
    → AddsDiagnostics ds s t
    → Agrees (record b { diagnostics = b.diagnostics ++ ds }) t
Agrees-Adds ds b s t a h = record {
  messages = h.0 ∙ a.messages;
  diagnostics = h.1 ∙ ap (λ l. l ++ ds) a.diagnostics;
  rejections = h.2 ∙ a.rejections;
  plane = h.3 ∙ a.plane;
}

module _ (options : LowerOptions) (parsed : List Diagnostic) (line : Line) where
  -- The end of a round.
  with-Matches :
      (o : Option MotionFamilyLowerer) (b : BatchState) (s : StreamState) (plane : WorkingPlane)
      → ((l : MotionFamilyLowerer)
          → o ≡ some l
          → (n : ℕ) → collect_line_errors (l.lower line options).1 n ≡ [])
      → IsRunning b
      → Agrees b s
      → ((n : ℕ) → collect_line_errors b.diagnostics n ≡ collect_line_errors parsed n)
      → Matches parsed
          (lower_with o options line plane b)
          (stream_with all_callbacks no_limits o options line plane s)
  unfolding lower_with stream_with check_stop stop_check exceeds report set_plane
  with-Matches none b s plane w k a h =
      goes_on k
        (record {
          messages = a.messages;
          diagnostics = a.diagnostics;
          rejections = a.rejections;
          plane = refl;
        })
        h
  with-Matches (some l) b s plane w k a h =
      let lowered = l.lower line options in
      let reported : StreamState = record s {
        events = s.events ++ message lowered.0 ∷ [];
        messages_seen = suc s.messages_seen;
      } in
      let (t, g, d) = lowering_diagnostics-Adds lowered.1 reported in
      rw (g) (
        goes_on k
          (record {
            messages =
                d.0 ∙ messages_of-append s.events _ ∙ ap (λ ms. ms ++ lowered.0 ∷ []) a.messages;
            diagnostics =
                d.1
                ∙ ap (λ ds. ds ++ lowered.1)
                    (diagnostics_of-append s.events _ ∙ append-nil _ ∙ a.diagnostics);
            rejections = d.2 ∙ rejections_of-append s.events _ ∙ append-nil _ ∙ a.rejections;
            plane = refl;
          })
          (λ n.
            collect-append b.diagnostics lowered.1 n
            ∙ ap (λ x. collect_line_errors b.diagnostics n ++ x) (w l refl n)
            ∙ append-nil _
            ∙ h n))

module _ (num : FloatText) (options : LowerOptions) (parsed : List Diagnostic) (line : Line) where
  motion-Matches :
      (scan : MotionScan) (b : BatchState) (s : StreamState)
      → IsRunning b
      → Agrees b s
      → ((n : ℕ) → collect_line_errors b.diagnostics n ≡ collect_line_errors parsed n)
      → Matches parsed (lower_motion num options line scan b) (
          stream_motion num all_callbacks no_limits options line scan
            (value_or scan.line_plane_override s.current_plane)
            s)
  unfolding lower_motion stream_motion
  motion-Matches scan b s k a h = simp (a.plane) (
      with-Matches options parsed line (find_lowerer num scan.found_motion) b s
        (value_or scan.line_plane_override b.current_plane)
        (λ l e n. find_lowerer-Harmless num scan.found_motion l e line options n) k a h)

  -- The arc check: the errors that it finds are all on the line, so both loops reject, or none.
  checked_arc-Matches :
      (scan : MotionScan) (ds : List Diagnostic) (b : BatchState) (s : StreamState)
      → All (ErrorAt line.line_index) ds
      → collect_line_errors parsed line.line_index ≡ []
      → IsRunning b
      → Agrees b s
      → ((n : ℕ) → collect_line_errors b.diagnostics n ≡ collect_line_errors parsed n)
      → Matches parsed (lower_checked_arc num options line scan ds b) (
          stream_checked_arc num all_callbacks no_limits options line scan
            (value_or scan.line_plane_override s.current_plane)
            ds
            s)
  unfolding lower_checked_arc stream_checked_arc emit_plane_diagnostics any_error
      collect_line_errors
  checked_arc-Matches scan [] b s at clean k a h =
      let none_found : line_has_error (b.diagnostics ++ []) line.line_index ≡ false =
        line_has_error-collect (b.diagnostics ++ []) line.line_index
        ∙ rw (collect-append b.diagnostics [] line.line_index, h line.line_index, clean) refl in
      rw (none_found) (
        motion-Matches scan (record b { diagnostics = b.diagnostics ++ [] }) s k
          (Agrees-Adds [] b s s a (refl, sym (append-nil _), refl, refl))
          (λ n. ap (λ l. collect_line_errors l n) (append-nil b.diagnostics) ∙ h n))
  checked_arc-Matches scan (d ∷ ds) b s at clean k a h =
      let n = line.line_index in
      let found : collect_line_errors (b.diagnostics ++ d ∷ ds) n ≡ d ∷ ds =
        collect-append b.diagnostics (d ∷ ds) n
        ∙ ap (λ l. l ++ collect_line_errors (d ∷ ds) n) (h n ∙ clean)
        ∙ collect-ErrorAt n (d ∷ ds) at in
      let errors : line_has_error (b.diagnostics ++ d ∷ ds) n ≡ true =
        line_has_error-collect (b.diagnostics ++ d ∷ ds) n ∙ rw (found) refl in
      rw (errors, any_error-ErrorAt n (d ∷ ds) at)
        (reject-Matches parsed options line (d ∷ ds)
          (record b { diagnostics = b.diagnostics ++ d ∷ ds })
          (emit_plane_diagnostics all_callbacks (d ∷ ds) s) found k
          (Agrees-Adds (d ∷ ds) b s _ a (plane_diagnostics-Adds (d ∷ ds) s)))

  arc-Matches :
      (scan : MotionScan) (b : BatchState) (s : StreamState)
      → IsLocated line
      → collect_line_errors parsed line.line_index ≡ []
      → IsRunning b
      → Agrees b s
      → ((n : ℕ) → collect_line_errors b.diagnostics n ≡ collect_line_errors parsed n)
      → Matches parsed (lower_arc num options line scan b) (
          stream_arc num all_callbacks no_limits options line scan
            (value_or scan.line_plane_override s.current_plane)
            s)
  unfolding lower_arc stream_arc
  arc-Matches scan b s at clean k a h =
      let found = λ (plane : WorkingPlane).
        validate_arc_plane_words line.items (value_or scan.line_plane_override plane) in
      subst
        (λ ds. Matches parsed (lower_checked_arc num options line scan ds b) (
          stream_checked_arc num all_callbacks no_limits options line scan
            (value_or scan.line_plane_override s.current_plane) (found s.current_plane) s))
        (ap found a.plane)
        (checked_arc-Matches scan (found s.current_plane) b s
          (validate-ErrorAt line.line_index line.items _ at) clean k a h)

  scanned-Matches :
      (scan : MotionScan) (b : BatchState) (s : StreamState)
      → IsLocated line
      → collect_line_errors parsed line.line_index ≡ []
      → IsRunning b
      → Agrees b s
      → ((n : ℕ) → collect_line_errors b.diagnostics n ≡ collect_line_errors parsed n)
      → Matches parsed
          (lower_scanned num options line scan b)
          (stream_scanned num all_callbacks no_limits options line scan s)
  unfolding lower_scanned stream_scanned set_plane
  scanned-Matches scan b s at clean k a h = elim (Bool-cases scan.has_motion) [
    | inl q ↦ elim (Bool-cases (is_arc_code scan.found_motion)) [
      | inl p ↦ simp (q, p) (arc-Matches scan b s at clean k a h)
      | inr p ↦ simp (q, p) (motion-Matches scan b s k a h)
    ]
    | inr q ↦ simp (q) (
        goes_on k
          (record {
            messages = a.messages;
            diagnostics = a.diagnostics;
            rejections = a.rejections;
            plane = ap (value_or scan.line_plane_override) a.plane;
          })
          h)
  ]

  pub line-Matches :
      (b : BatchState) (s : StreamState)
      → IsLocated line
      → IsRunning b
      → Agrees b s
      → ((n : ℕ) → collect_line_errors b.diagnostics n ≡ collect_line_errors parsed n)
      → Matches parsed
          (lower_message_line num options line b)
          (stream_line num all_callbacks no_limits options parsed line s)
  unfolding lower_message_line stream_line stream_checked check_stop stop_check exceeds
  line-Matches b s at k a h =
      let t : StreamState = record s { lines_seen = suc s.lines_seen } in
      let a' : Agrees b t = record {
        messages = a.messages;
        diagnostics = a.diagnostics;
        rejections = a.rejections;
        plane = a.plane;
      } in
      let n = line.line_index in
      let same : line_has_error b.diagnostics n ≡ line_has_error parsed n =
        line_has_error-collect b.diagnostics n ∙ rw (h n) (sym (line_has_error-collect parsed n)) in
      elim (Bool-cases (should_skip_line line options)) [
        | inl q ↦ simp (q) (goes_on k a' h)
        | inr q ↦ elim (Bool-cases (line_has_error parsed n)) [
          | inl p ↦
              simp (q, same, p)
                (reject-Matches parsed options line (collect_line_errors parsed n) b t (h n) k a')
          | inr p ↦
              simp (q, same, p)
                (scanned-Matches (scan_motion line.items no_motion) b t at (clean_of p) k a' h)
        ]
      ]
    where
      clean_of :
          line_has_error parsed line.line_index ≡ false
          → collect_line_errors parsed line.line_index ≡ []
      clean_of p = is_nil _ (sym (line_has_error-collect parsed line.line_index) ∙ p)
