-- ===== src/Messages/Callbacks.antt =====
-- src/messages.cpp: the callbacks and limits of lowerToMessagesStream. The callbacks that are set
-- report events, the latest last; the answer of should_cancel is a function of the number of calls
-- of it so far and of the events.
use experimental_gcode_parse.Prelude.{
  ℕ, suc, Bool, false, ◌||◌, List, [], ◌∷◌, ◌++◌, Option, none, some, if◌then◌else◌, ltb,
}
use experimental_gcode_parse.Ast.{Diagnostic}
use experimental_gcode_parse.Lowering.{RejectedLine, is_error}
use experimental_gcode_parse.Ail.{WorkingPlane}
use experimental_gcode_parse.Messages.{ParsedMessage}

pub data StreamEvent : Type 0 where
  message : ParsedMessage → StreamEvent
  diagnostic : Diagnostic → StreamEvent
  rejected : RejectedLine → StreamEvent

-- Which callbacks are set.
pub record StreamCallbacks : Type 0 where
  pub on_message : Bool
  pub on_diagnostic : Bool
  pub on_rejected_line : Bool

pub record StreamOptions : Type 0 where
  pub max_lines : Option ℕ
  pub max_messages : Option ℕ
  pub max_diagnostics : Option ℕ
  pub should_cancel : Option (ℕ → List StreamEvent → Bool)

pub record StreamState : Type 0 where
  pub events : List StreamEvent
  pub cancel_calls : ℕ
  pub lines_seen : ℕ
  pub messages_seen : ℕ
  pub diagnostics_seen : ℕ
  pub current_plane : WorkingPlane

-- The state after a part of the loop, and whether the loop goes on.
pub data Flow : Type 0 where
  go_on : StreamState → Flow
  return_false : StreamState → Flow

-- A step that runs where the one before it goes on.
abbrev pub then_flow : Flow → (StreamState → Flow) → Flow
then_flow (go_on s) f = f s
then_flow (return_false s) f = return_false s

unfoldable pub exceeds : ℕ → Option ℕ → Bool
exceeds seen none = false
exceeds seen (some limit) = ltb limit seen

-- shouldStop with the three numbers, then `return false` where it holds.
unfoldable pub stop_check : StreamOptions → ℕ → ℕ → ℕ → StreamState → Flow
unfolding exceeds
stop_check o lines messages diagnostics s =
    if exceeds lines o.max_lines
      || exceeds messages o.max_messages
      || exceeds diagnostics o.max_diagnostics
    then return_false s
    else elim o.should_cancel [
      | none ↦ go_on s
      | some cancel ↦
          let asked : StreamState = record s { cancel_calls = suc s.cancel_calls } in
          if cancel s.cancel_calls s.events then return_false asked else go_on asked
    ]

unfoldable pub check_stop : StreamOptions → StreamState → Flow
unfolding stop_check
check_stop o s = stop_check o s.lines_seen s.messages_seen s.diagnostics_seen s

-- `if (callback) callback(…)`
unfoldable pub report : Bool → StreamEvent → StreamState → StreamState
report set event s = if set then record s { events = s.events ++ event ∷ [] } else s

unfoldable pub report_diagnostic : StreamCallbacks → Diagnostic → StreamState → StreamState
unfolding report
report_diagnostic c diag s =
    let reported = report c.on_diagnostic (diagnostic diag) s in
    record reported { diagnostics_seen = suc reported.diagnostics_seen }

-- emitParseDiagnostics, which passes 0 for lines and messages
unfoldable pub emit_parse_diagnostics :
    StreamCallbacks → StreamOptions → List Diagnostic → StreamState → Flow
unfolding report_diagnostic stop_check
emit_parse_diagnostics c o [] s = go_on s
emit_parse_diagnostics c o (diag ∷ diagnostics) s =
    let reported = report_diagnostic c diag s in
    then_flow (stop_check o 0 0 reported.diagnostics_seen reported)
      (emit_parse_diagnostics c o diagnostics)

-- The loop over the diagnostics of the lowered line.
unfoldable pub emit_lowering_diagnostics :
    StreamCallbacks → StreamOptions → List Diagnostic → StreamState → Flow
unfolding report_diagnostic check_stop
emit_lowering_diagnostics c o [] s = go_on s
emit_lowering_diagnostics c o (diag ∷ diagnostics) s =
    then_flow (check_stop o (report_diagnostic c diag s))
      (emit_lowering_diagnostics c o diagnostics)

-- The loop over the diagnostics of the arc words, which checks no limit.
unfoldable pub emit_plane_diagnostics :
    StreamCallbacks → List Diagnostic → StreamState → StreamState
unfolding report_diagnostic
emit_plane_diagnostics c [] s = s
emit_plane_diagnostics c (diag ∷ diagnostics) s =
    emit_plane_diagnostics c diagnostics (report_diagnostic c diag s)

-- The std::any_of of the loop.
unfoldable pub any_error : List Diagnostic → Bool
unfolding is_error
any_error [] = false
any_error (diag ∷ diagnostics) = is_error diag.severity || any_error diagnostics
