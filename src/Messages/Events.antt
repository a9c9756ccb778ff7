-- ===== src/Messages/Events.antt =====
-- What the events of lowerToMessagesStream report, and how its state and that of the loop of
-- lowerToMessages correspond.
use mathlib.Core.List.{append-nil, append_assoc}
use experimental_gcode_parse.Prelude.{
  ℕ, true, false, List, [], ◌∷◌, ◌++◌, none, ◌≡◌, refl, ap, ◌∙◌, sym,
}
use experimental_gcode_parse.Ast.{Diagnostic, Line}
use experimental_gcode_parse.Lowering.{LowerOptions, RejectedLine}
use experimental_gcode_parse.Messages.{ParsedMessage}
use experimental_gcode_parse.Messages.Words.{collect_line_errors}
use experimental_gcode_parse.Messages.Batch.{BatchState, reject, rejected_line}
use experimental_gcode_parse.Messages.Callbacks.{
  StreamEvent, message, diagnostic, rejected, StreamCallbacks, StreamOptions, StreamState, Flow,
  go_on, return_false, exceeds, stop_check, check_stop, report, report_diagnostic,
  emit_parse_diagnostics, emit_lowering_diagnostics, emit_plane_diagnostics,
}
use experimental_gcode_parse.Messages.Stream.{stream_reject}

abbrev pub all_callbacks : StreamCallbacks
all_callbacks = record { on_message = true; on_diagnostic = true; on_rejected_line = true }

abbrev pub no_limits : StreamOptions
no_limits = record {
  max_lines = none;
  max_messages = none;
  max_diagnostics = none;
  should_cancel = none;
}

-- What the events report, by kind.
abbrev pub messages_of : List StreamEvent → List ParsedMessage
messages_of [] = []
messages_of (message m ∷ events) = m ∷ messages_of events
messages_of (diagnostic d ∷ events) = messages_of events
messages_of (rejected r ∷ events) = messages_of events

abbrev pub diagnostics_of : List StreamEvent → List Diagnostic
diagnostics_of [] = []
diagnostics_of (message m ∷ events) = diagnostics_of events
diagnostics_of (diagnostic d ∷ events) = d ∷ diagnostics_of events
diagnostics_of (rejected r ∷ events) = diagnostics_of events

abbrev pub rejections_of : List StreamEvent → List RejectedLine
rejections_of [] = []
rejections_of (message m ∷ events) = rejections_of events
rejections_of (diagnostic d ∷ events) = rejections_of events
rejections_of (rejected r ∷ events) = r ∷ rejections_of events

pub messages_of-append :
    (xs ys : List StreamEvent) → messages_of (xs ++ ys) ≡ messages_of xs ++ messages_of ys
messages_of-append [] ys = refl
messages_of-append (message m ∷ xs) ys = ap (λ l. m ∷ l) (messages_of-append xs ys)
messages_of-append (diagnostic d ∷ xs) ys = messages_of-append xs ys
messages_of-append (rejected r ∷ xs) ys = messages_of-append xs ys

pub diagnostics_of-append :
    (xs ys : List StreamEvent) → diagnostics_of (xs ++ ys) ≡ diagnostics_of xs ++ diagnostics_of ys
diagnostics_of-append [] ys = refl
diagnostics_of-append (message m ∷ xs) ys = diagnostics_of-append xs ys
diagnostics_of-append (diagnostic d ∷ xs) ys = ap (λ l. d ∷ l) (diagnostics_of-append xs ys)
diagnostics_of-append (rejected r ∷ xs) ys = diagnostics_of-append xs ys

pub rejections_of-append :
    (xs ys : List StreamEvent) → rejections_of (xs ++ ys) ≡ rejections_of xs ++ rejections_of ys
rejections_of-append [] ys = refl
rejections_of-append (message m ∷ xs) ys = rejections_of-append xs ys
rejections_of-append (diagnostic d ∷ xs) ys = rejections_of-append xs ys
rejections_of-append (rejected r ∷ xs) ys = ap (λ l. r ∷ l) (rejections_of-append xs ys)

-- The events report what the batch has collected.
pub record Agrees (b : BatchState) (s : StreamState) : Type 0 where
  pub messages : messages_of s.events ≡ b.messages
  pub diagnostics : diagnostics_of s.events ≡ b.diagnostics
  pub rejections : rejections_of s.events ≡ b.rejected_lines
  pub plane : s.current_plane ≡ b.current_plane

-- A state that adds diagnostics to another, and nothing else that the comparison reads.
abbrev pub AddsDiagnostics : List Diagnostic → StreamState → StreamState → Type 0
AddsDiagnostics ds s t =
    (messages_of t.events ≡ messages_of s.events)
    × (diagnostics_of t.events ≡ diagnostics_of s.events ++ ds)
    × (rejections_of t.events ≡ rejections_of s.events)
    × (t.current_plane ≡ s.current_plane)

-- One reported diagnostic.
abbrev reported_one : Diagnostic → StreamState → StreamState
reported_one d s = report_diagnostic all_callbacks d s

reported-Adds : (d : Diagnostic) (s : StreamState) → AddsDiagnostics (d ∷ []) s (reported_one d s)
unfolding report_diagnostic report
reported-Adds d s = (
  messages_of-append s.events _ ∙ append-nil _,
  diagnostics_of-append s.events _,
  rejections_of-append s.events _ ∙ append-nil _,
  refl,
)

adds-then :
    (d : Diagnostic) (ds : List Diagnostic) (s t u : StreamState)
    → AddsDiagnostics (d ∷ []) s t
    → AddsDiagnostics ds t u
    → AddsDiagnostics (d ∷ ds) s u
adds-then d ds s t u h k = (
  k.0 ∙ h.0,
  k.1 ∙ ap (λ l. l ++ ds) h.1 ∙ append_assoc (diagnostics_of s.events) (d ∷ []) ds,
  k.2 ∙ h.2,
  k.3 ∙ h.3,
)

adds-nothing : (s : StreamState) → AddsDiagnostics [] s s
adds-nothing s = (refl, sym (append-nil _), refl, refl)

pub plane_diagnostics-Adds :
    (ds : List Diagnostic) (s : StreamState)
    → AddsDiagnostics ds s (emit_plane_diagnostics all_callbacks ds s)
unfolding emit_plane_diagnostics
plane_diagnostics-Adds [] s = adds-nothing s
plane_diagnostics-Adds (d ∷ ds) s =
    adds-then d ds s (reported_one d s) (emit_plane_diagnostics all_callbacks ds (reported_one d s))
      (reported-Adds d s) (plane_diagnostics-Adds ds (reported_one d s))

pub lowering_diagnostics-Adds :
    (ds : List Diagnostic) (s : StreamState)
    → (t : StreamState) × (emit_lowering_diagnostics all_callbacks no_limits ds s ≡ go_on t)
      × AddsDiagnostics ds s t
unfolding emit_lowering_diagnostics check_stop stop_check exceeds
lowering_diagnostics-Adds [] s = (s, refl, adds-nothing s)
lowering_diagnostics-Adds (d ∷ ds) s =
    let (t, e, h) = lowering_diagnostics-Adds ds (reported_one d s) in
    (t, e, adds-then d ds s (reported_one d s) t (reported-Adds d s) h)

pub parse_diagnostics-Adds :
    (ds : List Diagnostic) (s : StreamState)
    → (t : StreamState) × (emit_parse_diagnostics all_callbacks no_limits ds s ≡ go_on t)
      × AddsDiagnostics ds s t
unfolding emit_parse_diagnostics stop_check exceeds
parse_diagnostics-Adds [] s = (s, refl, adds-nothing s)
parse_diagnostics-Adds (d ∷ ds) s =
    let (t, e, h) = parse_diagnostics-Adds ds (reported_one d s) in
    (t, e, adds-then d ds s (reported_one d s) t (reported-Adds d s) h)

-- The batch loop goes on, and has rejected nothing.
abbrev pub IsRunning : BatchState → Type 0
IsRunning b = (b.left_loop ≡ false) × (b.rejected_lines ≡ [])

-- The batch loop was left with one rejected line.
abbrev pub IsStopped : BatchState → Type 0
IsStopped b = (b.left_loop ≡ true) × (r : RejectedLine) × (b.rejected_lines ≡ r ∷ [])

-- A round of the two loops: both go on and agree, with no new errors, or both stop and agree.
pub data Matches (parsed : List Diagnostic) : BatchState → Flow → Type 0 where
  goes_on :
      {b : BatchState} {s : StreamState}
      → IsRunning b
      → Agrees b s
      → ((n : ℕ) → collect_line_errors b.diagnostics n ≡ collect_line_errors parsed n)
      → Matches parsed b (go_on s)
  stops :
      {b : BatchState} {s : StreamState}
      → IsStopped b
      → Agrees b s
      → Matches parsed b (return_false s)

-- A rejection, whose reasons are the line's errors.
pub reject-Matches :
    (parsed : List Diagnostic) (options : LowerOptions) (line : Line) (reasons : List Diagnostic)
    (b : BatchState) (s : StreamState)
    → collect_line_errors b.diagnostics line.line_index ≡ reasons
    → IsRunning b
    → Agrees b s
    → Matches parsed (reject options line b) (stream_reject all_callbacks options line reasons s)
unfolding reject stream_reject report
reject-Matches parsed options line reasons b s e k a =
    stops
      (
        refl,
        _,
        ap
            (λ l.
              l
              ++ rejected_line options line (collect_line_errors b.diagnostics line.line_index)
                ∷ [])
            k.1,
      )
      (record {
        messages = messages_of-append s.events _ ∙ append-nil _ ∙ a.messages;
        diagnostics = diagnostics_of-append s.events _ ∙ append-nil _ ∙ a.diagnostics;
        rejections =
            rejections_of-append s.events _
            ∙ ap (λ l. l ++ rejected_line options line reasons ∷ []) a.rejections
            ∙ ap (λ l. b.rejected_lines ++ rejected_line options line l ∷ []) (sym e);
        plane = a.plane;
      })
