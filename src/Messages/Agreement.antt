-- ===== src/Messages/Agreement.antt =====
-- The stream against the batch: with all callbacks set and no limit, lowerToMessagesStream reports
-- what lowerToMessages collects.
use experimental_gcode_parse.Prelude.{ℕ, List, [], ◌∷◌, ◌≡◌, refl, All, if◌then◌else◌}
use experimental_gcode_parse.Floats.{FloatText}
use experimental_gcode_parse.Ast.{Diagnostic, Line, Program}
use experimental_gcode_parse.Lowering.{LowerOptions, RejectedLine}
use experimental_gcode_parse.Messages.{MessageResult}
use experimental_gcode_parse.Messages.Words.{collect_line_errors}
use experimental_gcode_parse.Messages.Batch.{
  BatchState, lower_message_line, lower_message_lines, lower_to_messages, batch_start, result_of,
}
use experimental_gcode_parse.Messages.Callbacks.{
  StreamEvent, StreamState, Flow, go_on, return_false, then_flow,
}
use experimental_gcode_parse.Messages.Stream.{
  stream_line, stream_lines, stream_start, lower_to_messages_stream,
}
use experimental_gcode_parse.Messages.Errors.{IsLocated}
use experimental_gcode_parse.Messages.Events.{
  all_callbacks, no_limits, messages_of, diagnostics_of, rejections_of, Agrees,
  parse_diagnostics-Adds, IsRunning, Matches, goes_on, stops,
}
use experimental_gcode_parse.Messages.Rounds.{line-Matches}

module _ (num : FloatText) (options : LowerOptions) (parsed : List Diagnostic) where
  continue-Matches :
      (lines : List Line) (b : BatchState) (f : Flow)
      → Matches parsed b f
      → ((c : BatchState) (s : StreamState)
          → IsRunning c
          → Agrees c s
          → ((n : ℕ) → collect_line_errors c.diagnostics n ≡ collect_line_errors parsed n)
          → Matches parsed
              (lower_message_lines num options lines c)
              (stream_lines num all_callbacks no_limits options parsed lines s))
      → Matches parsed
          (if b.left_loop then b else lower_message_lines num options lines b)
          (then_flow f (stream_lines num all_callbacks no_limits options parsed lines))
  continue-Matches lines b f (goes_on k a h) next = simp (k.0) (next b _ k a h)
  continue-Matches lines b f (stops k a) next = simp (k.0) (stops k a)

  lines-Matches :
      (lines : List Line) (b : BatchState) (s : StreamState)
      → All IsLocated lines
      → IsRunning b
      → Agrees b s
      → ((n : ℕ) → collect_line_errors b.diagnostics n ≡ collect_line_errors parsed n)
      → Matches parsed
          (lower_message_lines num options lines b)
          (stream_lines num all_callbacks no_limits options parsed lines s)
  unfolding lower_message_lines stream_lines
  lines-Matches [] b s at k a h = goes_on k a h
  lines-Matches (line ∷ lines) b s at k a h =
      continue-Matches lines (lower_message_line num options line b)
        (stream_line num all_callbacks no_limits options parsed line s)
        (line-Matches num options parsed line b s at.0 k a h)
        (λ c t k' a' h'. lines-Matches lines c t at.1 k' a' h')

-- The events of a run, and its result, tell what the batch has collected: messages, diagnostics and
-- rejected lines in order, and `false` exactly where a line was rejected.
abbrev pub Reports : List StreamEvent → MessageResult → Type 0
Reports events r =
    (messages_of events ≡ r.messages)
    × (diagnostics_of events ≡ r.diagnostics)
    × (rejections_of events ≡ r.rejected_lines)

abbrev pub IsReportOf : MessageResult → Flow → Type 0
IsReportOf r (go_on s) = Reports s.events r × (r.rejected_lines ≡ [])
IsReportOf r (return_false s) =
    Reports s.events r × (rejection : RejectedLine) × (r.rejected_lines ≡ rejection ∷ [])

Matches-IsReportOf :
    (parsed : List Diagnostic) (b : BatchState) (f : Flow)
    → Matches parsed b f
    → IsReportOf (result_of b) f
Matches-IsReportOf parsed b f (goes_on k a h) = ((a.messages, a.diagnostics, a.rejections), k.1)
Matches-IsReportOf parsed b f (stops k a) = ((a.messages, a.diagnostics, a.rejections), k.1, k.2)

-- With all callbacks set, no limit and no cancellation, the stream reports exactly what the batch
-- lowering of the same program collects: the same messages, diagnostics and rejected lines, each in
-- the same order; it returns false exactly where a line was rejected. The words of a line stand on
-- the line.
pub stream-IsReportOf :
    (num : FloatText) (program : Program) (parsed : List Diagnostic) (options : LowerOptions)
    → All IsLocated program.lines
    → IsReportOf
        (lower_to_messages num program parsed options)
        (lower_to_messages_stream num program parsed options all_callbacks no_limits)
unfolding lower_to_messages lower_to_messages_stream
stream-IsReportOf num program parsed options at =
    let (t, e, d) = parse_diagnostics-Adds parsed stream_start in
    rw (e) (
      Matches-IsReportOf parsed _ _ (
        lines-Matches num options parsed program.lines (batch_start parsed) t at (refl, refl)
          (record { messages = d.0; diagnostics = d.1; rejections = d.2; plane = d.3 })
          (λ n. refl)))
