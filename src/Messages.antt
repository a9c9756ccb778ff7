-- ===== src/Messages.antt =====
-- src/messages.h: the messages that lines with motion are lowered to.
pub mod Words
pub mod Family
pub mod Batch
pub mod Callbacks
pub mod Stream
pub mod Errors
pub mod Events
pub mod Rounds
pub mod Agreement
use experimental_gcode_parse.Prelude.{ℕ, List, Option}
use experimental_gcode_parse.Floats.{Double}
use experimental_gcode_parse.Ast.{Diagnostic}
use experimental_gcode_parse.Lowering.{
  SourceInfo, ModalState, Pose6, ArcParams, DwellMode, RejectedLine,
}

-- G0Message and G1Message, which have the same fields.
pub record LinearMessage : Type 0 where
  pub source : SourceInfo
  pub modal : ModalState
  pub target_pose : Pose6
  pub feed : Option Double

-- G2Message and G3Message
pub record ArcMessage : Type 0 where
  pub source : SourceInfo
  pub modal : ModalState
  pub target_pose : Pose6
  pub arc : ArcParams
  pub feed : Option Double

pub record DwellMessage : Type 0 where
  pub source : SourceInfo
  pub modal : ModalState
  pub dwell_mode : DwellMode
  pub dwell_value : Double

pub data ParsedMessage : Type 0 where
  g0 g1 : LinearMessage → ParsedMessage
  g2 g3 : ArcMessage → ParsedMessage
  g4 : DwellMessage → ParsedMessage

-- The `source` that every alternative has, as `std::visit` reads it.
unfoldable pub message_source : ParsedMessage → SourceInfo
message_source (g0 m) = m.source
message_source (g1 m) = m.source
message_source (g2 m) = m.source
message_source (g3 m) = m.source
message_source (g4 m) = m.source

pub record MessageResult : Type 0 where
  pub messages : List ParsedMessage
  pub diagnostics : List Diagnostic
  pub rejected_lines : List RejectedLine
