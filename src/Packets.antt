-- ===== src/Packets.antt =====
-- src/packet.h and src/packet.cpp: the packets that the motion instructions of a program become.
pub mod Numbering
use experimental_gcode_parse.Prelude.{
  ℕ, suc, String, ◌+++◌, Bytes, Bool, List, [], ◌∷◌, ◌++◌, Option, none, some,
}
use experimental_gcode_parse.Floats.{Double, FloatText}
use experimental_gcode_parse.Ast.{Diagnostic, ParseResult}
use experimental_gcode_parse.Lowering.{
  SourceInfo, Pose6, ModalState, ArcParams, DwellMode, RejectedLine, LowerOptions, warning_at,
}
use experimental_gcode_parse.Ail.{
  AilInstruction, AilResult, AxisSystemVariableRefs, RapidInterpolationMode, WorkingPlane,
  linear_move, arc_move, dwell, mcode, rapid_traverse_mode, tool_radius_comp, working_plane,
  tool_select, tool_change, return_boundary, subprogram_call, assign, label, goto_, branch_if, sync,
}
use experimental_gcode_parse.Lower.Program.{parse_and_lower_ail}

pub data PacketType : Type 0 where
  linear_packet arc_packet dwell_packet : PacketType

pub record MotionLinearPayload : Type 0 where
  pub target_pose : Pose6
  pub target_system_variables : AxisSystemVariableRefs
  pub feed : Option Double
  pub rapid_mode_effective : Option RapidInterpolationMode

pub record MotionArcPayload : Type 0 where
  pub clockwise : Bool
  pub plane_effective : WorkingPlane
  pub target_pose : Pose6
  pub arc : ArcParams
  pub feed : Option Double

pub record DwellPayload : Type 0 where
  pub dwell_mode : DwellMode
  pub dwell_value : Double

pub data PacketPayload : Type 0 where
  linear_payload : MotionLinearPayload → PacketPayload
  arc_payload : MotionArcPayload → PacketPayload
  dwell_payload : DwellPayload → PacketPayload

pub record MotionPacket : Type 0 where
  pub packet_id : ℕ
  pub type : PacketType
  pub source : SourceInfo
  pub modal : ModalState
  pub payload : PacketPayload

-- The result under construction, with next_packet_id. The 64 bits of the id are not written out: a
-- program has fewer instructions.
pub record PacketState : Type 0 where
  pub packets : List MotionPacket
  pub diagnostics : List Diagnostic
  pub next_packet_id : ℕ

pub record PacketResult : Type 0 where
  pub packets : List MotionPacket
  pub diagnostics : List Diagnostic
  pub rejected_lines : List RejectedLine

-- makeSkippedInstructionWarning
unfoldable pub make_skipped_instruction_warning : SourceInfo → String → Diagnostic
make_skipped_instruction_warning source kind =
    warning_at (record { line = source.line; column = 1 })
      ("packetization skipped non-motion instruction: " +++ kind)

-- The push of a packet with the next id.
unfoldable pub push_packet :
    PacketType → SourceInfo → ModalState → PacketPayload → PacketState → PacketState
push_packet type source modal payload s = record s {
  packets =
      s.packets
      ++ record {
        packet_id = s.next_packet_id;
        type = type;
        source = source;
        modal = modal;
        payload = payload;
      }
        ∷ [];
  next_packet_id = suc s.next_packet_id;
}

unfoldable pub push_warning : SourceInfo → String → PacketState → PacketState
unfolding make_skipped_instruction_warning
push_warning source kind s = record s {
  diagnostics = s.diagnostics ++ make_skipped_instruction_warning source kind ∷ [];
}

-- The visitor of lowerAilToPackets.
unfoldable pub packetize : AilInstruction → PacketState → PacketState
unfolding push_packet push_warning
packetize (linear_move i) s =
    push_packet linear_packet i.source i.modal
      (linear_payload (record {
        target_pose = i.target_pose;
        target_system_variables = i.target_system_variables;
        feed = i.feed;
        rapid_mode_effective = i.rapid_mode_effective;
      }))
      s
packetize (arc_move i) s =
    push_packet arc_packet i.source i.modal
      (arc_payload (record {
        clockwise = i.clockwise;
        plane_effective = i.plane_effective;
        target_pose = i.target_pose;
        arc = i.arc;
        feed = i.feed;
      }))
      s
packetize (dwell i) s =
    push_packet dwell_packet i.source i.modal
      (dwell_payload (record { dwell_mode = i.dwell_mode; dwell_value = i.dwell_value })) s
packetize (assign i) s = push_warning i.source "assign" s
packetize (mcode i) s = push_warning i.source "m_function" s
packetize (rapid_traverse_mode source m) s = s
packetize (tool_radius_comp source m) s = s
packetize (working_plane source p) s = s
packetize (tool_select i) s = s
packetize (tool_change source t) s = s
packetize (return_boundary source o) s = s
packetize (subprogram_call i) s = s
packetize (label source n) s = push_warning source "label" s
packetize (goto_ i) s = push_warning i.source "goto" s
packetize (branch_if i) s = push_warning i.source "branch_if" s
packetize (sync source t) s = push_warning source "sync" s

unfoldable pub packetize_all : List AilInstruction → PacketState → PacketState
unfolding packetize
packetize_all [] s = s
packetize_all (i ∷ is) s = packetize_all is (packetize i s)

abbrev pub packet_result : List RejectedLine → PacketState → PacketResult
packet_result rejected s = record {
  packets = s.packets;
  diagnostics = s.diagnostics;
  rejected_lines = rejected;
}

-- lowerAilToPackets
unfoldable pub lower_ail_to_packets : AilResult → PacketResult
unfolding packetize_all
lower_ail_to_packets r = packet_result r.rejected_lines (
    packetize_all r.instructions
      (record { packets = []; diagnostics = r.diagnostics; next_packet_id = 1 }))

-- parseLowerAndPacketize
unfoldable pub parse_lower_and_packetize :
    FloatText → (Bytes → Bool → ParseResult) → Bytes → LowerOptions → Option PacketResult
unfolding parse_and_lower_ail lower_ail_to_packets
parse_lower_and_packetize num parse input options =
    elim (parse_and_lower_ail num parse input options) [
      | none ↦ none
      | some r ↦ some (lower_ail_to_packets r)
    ]
