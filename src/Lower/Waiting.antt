-- ===== src/Lower/Waiting.antt =====
-- The message by which the streaming engine tells an unfinished IF from a rejected line: the
-- lowering never puts it among the reasons of a rejected line.
use experimental_gcode_parse.Prelude.{
  false, not, List, [], ◌∷◌, ◌++◌, Option, none, some, ◌≡◌, refl, All, All-append, All-imp,
  if_either, string_eq, int_eq,
}
use experimental_gcode_parse.Floats.{FloatText}
use experimental_gcode_parse.Ast
use experimental_gcode_parse.Ast.{Diagnostic, Word, LineItem, word, comment, Line}
use experimental_gcode_parse.Lowering.{LowerOptions, line_has_error, should_skip_line}
use experimental_gcode_parse.Ail.{WorkingPlane, AilResult}
use experimental_gcode_parse.Engine.Pending.{has_missing_endif}
use experimental_gcode_parse.Messages.Words.{MotionScan, no_motion, scan_motion}
use experimental_gcode_parse.Messages.Family.{MotionFamilyLowerer, find_lowerer}
use experimental_gcode_parse.Messages.Batch.{
  BatchState, reject, lower_with, lower_motion, lower_checked_arc, lower_arc, lower_scanned,
  lower_message_line, lower_message_lines, lower_to_messages, batch_start, is_arc_code,
}
use experimental_gcode_parse.Lower.Program.{lower_to_ail}
use experimental_gcode_parse.Lower.Returns.{lower_to_ail-rejected}
use experimental_gcode_parse.Lower.Reasons.{
  IsOther, AreOther, has_missing_endif-AreOther, AreOther-has_missing_endif, collect-AreOther,
  validate-AreOther, find_lowerer-AddsOther,
}

record Spoken (b : BatchState) : Type 0 where
  pub diagnostics : AreOther b.diagnostics
  pub rejections : All (λ r. AreOther r.reasons) b.rejected_lines

reject-Spoken :
    (options : LowerOptions) (line : Line) (b : BatchState)
    → Spoken b
    → Spoken (reject options line b)
unfolding reject
reject-Spoken options line b h = record {
  diagnostics = h.diagnostics;
  rejections =
      All-append (λ r. AreOther r.reasons) b.rejected_lines _ h.rejections
        (collect-AreOther b.diagnostics line.line_index h.diagnostics, tt);
}

with-Spoken :
    (options : LowerOptions) (line : Line) (plane : WorkingPlane) (o : Option MotionFamilyLowerer)
    (b : BatchState)
    → ((l : MotionFamilyLowerer) → o ≡ some l → AreOther (l.lower line options).1)
    → Spoken b
    → Spoken (lower_with o options line plane b)
unfolding lower_with
with-Spoken options line plane none b w h = record {
  diagnostics = h.diagnostics;
  rejections = h.rejections;
}
with-Spoken options line plane (some l) b w h = record {
  diagnostics = All-append IsOther b.diagnostics _ h.diagnostics (w l refl);
  rejections = h.rejections;
}

module _ (num : FloatText) (options : LowerOptions) where
  motion-Spoken :
      (line : Line) (scan : MotionScan) (b : BatchState)
      → Spoken b
      → Spoken (lower_motion num options line scan b)
  unfolding lower_motion
  motion-Spoken line scan b h =
      with-Spoken options line _ (find_lowerer num scan.found_motion) b
        (λ l e. find_lowerer-AddsOther num scan.found_motion l e line options) h

  arc-Spoken :
      (line : Line) (scan : MotionScan) (ds : List Diagnostic) (b : BatchState)
      → AreOther ds
      → Spoken b
      → Spoken (lower_checked_arc num options line scan ds b)
  unfolding lower_checked_arc
  arc-Spoken line scan ds b d h =
      let validated : BatchState = record b { diagnostics = b.diagnostics ++ ds } in
      let h' : Spoken validated = record {
        diagnostics = All-append IsOther b.diagnostics ds h.diagnostics d;
        rejections = h.rejections;
      } in
      if_either Spoken (line_has_error (b.diagnostics ++ ds) line.line_index)
        (reject-Spoken options line validated h') (motion-Spoken line scan validated h')

  line-Spoken :
      (line : Line) (b : BatchState) → Spoken b → Spoken (lower_message_line num options line b)
  unfolding lower_message_line lower_scanned lower_arc
  line-Spoken line b h =
      let scan = scan_motion line.items no_motion in
      if_either Spoken (should_skip_line line options) h (
        if_either Spoken (line_has_error b.diagnostics line.line_index)
          (reject-Spoken options line b h)
          (if_either Spoken (not scan.has_motion)
            (record { diagnostics = h.diagnostics; rejections = h.rejections })
            (if_either Spoken (is_arc_code scan.found_motion)
              (arc-Spoken line scan _ b (validate-AreOther line.items _) h)
              (motion-Spoken line scan b h))))

  lines-Spoken :
      (lines : List Line) (b : BatchState)
      → Spoken b
      → Spoken (lower_message_lines num options lines b)
  unfolding lower_message_lines
  lines-Spoken [] b h = h
  lines-Spoken (line ∷ lines) b h =
      let next = lower_message_line num options line b in
      if_either Spoken next.left_loop (line-Spoken line b h)
        (lines-Spoken lines next (line-Spoken line b h))

-- The engine takes a rejected line for an unfinished IF, and waits for more input, where a reason of
-- the rejection reads "missing ENDIF for IF block". A lowered program has no such rejected line,
-- unless the parser itself reports that message.
pub lower_to_ail-never_waits :
    (num : FloatText) (program : Ast.Program) (ds : List Diagnostic) (options : LowerOptions)
    (r : AilResult)
    → has_missing_endif ds ≡ false
    → lower_to_ail num program ds options ≡ some r
    → All (λ rejected. has_missing_endif rejected.reasons ≡ false) r.rejected_lines
unfolding lower_to_messages
lower_to_ail-never_waits num program ds options r h e =
    let spoken =
      lines-Spoken num options program.lines (batch_start ds)
        (record { diagnostics = has_missing_endif-AreOther ds h; rejections = tt }) in
    rw (lower_to_ail-rejected num program ds options r e)
      (All-imp _ (λ x k. AreOther-has_missing_endif x.reasons k) spoken.rejections)
