-- ===== src/Packets/Numbering.antt =====
-- The packets of a program in order: one for each motion instruction, numbered from 1.
use mathlib.Core.List.{append-nil, append_assoc}
use experimental_gcode_parse.Prelude.{
  ℕ, zero, suc, List, [], ◌∷◌, ◌++◌, map, ◌≡◌, refl, length, ap, ◌∙◌, sym,
}
use experimental_gcode_parse.Ast.{Diagnostic}
use experimental_gcode_parse.Ail.{
  AilInstruction, AilResult, linear_move, arc_move, dwell, mcode, rapid_traverse_mode,
  tool_radius_comp, working_plane, tool_select, tool_change, return_boundary, subprogram_call,
  assign, label, goto_, branch_if, sync, source_of,
}
use experimental_gcode_parse.Packets.{
  PacketState, MotionPacket, PacketResult, packetize, packetize_all, push_packet, push_warning,
  make_skipped_instruction_warning, lower_ail_to_packets,
}

-- The motion instructions of a program, in order.
abbrev pub motion : AilInstruction → List AilInstruction
motion (linear_move i) = linear_move i ∷ []
motion (arc_move i) = arc_move i ∷ []
motion (dwell i) = dwell i ∷ []
motion _ = []

abbrev pub motions : List AilInstruction → List AilInstruction
motions [] = []
motions (i ∷ is) = motion i ++ motions is

-- The kinds of instruction that are reported as skipped, with their names.
abbrev pub skipped : AilInstruction → List Diagnostic
skipped (assign i) = make_skipped_instruction_warning i.source "assign" ∷ []
skipped (mcode i) = make_skipped_instruction_warning i.source "m_function" ∷ []
skipped (label s n) = make_skipped_instruction_warning s "label" ∷ []
skipped (goto_ i) = make_skipped_instruction_warning i.source "goto" ∷ []
skipped (branch_if i) = make_skipped_instruction_warning i.source "branch_if" ∷ []
skipped (sync s t) = make_skipped_instruction_warning s "sync" ∷ []
skipped _ = []

abbrev pub all_skipped : List AilInstruction → List Diagnostic
all_skipped [] = []
all_skipped (i ∷ is) = skipped i ++ all_skipped is

-- The numbers from `n` on, as many as wanted.
abbrev pub count_from : ℕ → ℕ → List ℕ
count_from n zero = []
count_from n (suc k) = n ∷ count_from (suc n) k

-- What the packets of a state are, given those and the diagnostics before.
record Added (before after : PacketState) (is : List AilInstruction) : Type 0 where
  pub ids :
      map (λ p. p.packet_id) after.packets
      ≡ map (λ p. p.packet_id) before.packets
        ++ count_from before.next_packet_id (length (motions is))
  pub sources :
      map (λ p. p.source) after.packets
      ≡ map (λ p. p.source) before.packets ++ map source_of (motions is)
  pub diagnostics : after.diagnostics ≡ before.diagnostics ++ all_skipped is

map-append {ℓ κ} :
    {A : Type ℓ} {B : Type κ} (f : A → B) (xs ys : List A) → map f (xs ++ ys) ≡ map f xs ++ map f ys
map-append f [] ys = refl
map-append f (x ∷ xs) ys = ap (λ l. f x ∷ l) (map-append f xs ys)

-- A state that holds one more packet for the instruction, or one more warning.
step-packet :
    (i : AilInstruction) (p : MotionPacket) (is : List AilInstruction) (s t : PacketState)
    → motion i ≡ i ∷ []
    → skipped i ≡ []
    → p.packet_id ≡ s.next_packet_id
    → p.source ≡ source_of i
    → Added (record s { packets = s.packets ++ p ∷ []; next_packet_id = suc s.next_packet_id }) t is
    → Added s t (i ∷ is)
step-packet i p is s t m k e f a = record {
  ids = a.ids ∙ simp (map-append, m, e, append_assoc) refl;
  sources = a.sources ∙ simp (map-append, m, f, append_assoc) refl;
  diagnostics = a.diagnostics ∙ simp (k) refl;
}

step-warning :
    (i : AilInstruction) (is : List AilInstruction) (s t : PacketState)
    → motion i ≡ []
    → Added (record s { diagnostics = s.diagnostics ++ skipped i }) t is
    → Added s t (i ∷ is)
step-warning i is s t m a = record {
  ids = a.ids ∙ simp (m) refl;
  sources = a.sources ∙ simp (m) refl;
  diagnostics = a.diagnostics ∙ append_assoc s.diagnostics (skipped i) (all_skipped is);
}

step-silent :
    (i : AilInstruction) (is : List AilInstruction) (s t : PacketState)
    → motion i ≡ []
    → skipped i ≡ []
    → Added s t is
    → Added s t (i ∷ is)
step-silent i is s t m k a = record {
  ids = a.ids ∙ simp (m) refl;
  sources = a.sources ∙ simp (m) refl;
  diagnostics = a.diagnostics ∙ simp (k) refl;
}

packetize_all-Added : (is : List AilInstruction) (s : PacketState) → Added s (packetize_all is s) is
unfolding packetize_all packetize push_packet push_warning source_of
packetize_all-Added [] s = record {
  ids = sym (append-nil _);
  sources = sym (append-nil _);
  diagnostics = sym (append-nil _);
}
packetize_all-Added (linear_move i ∷ is) s =
    step-packet (linear_move i) _ is s _ refl refl refl refl (packetize_all-Added is _)
packetize_all-Added (arc_move i ∷ is) s =
    step-packet (arc_move i) _ is s _ refl refl refl refl (packetize_all-Added is _)
packetize_all-Added (dwell i ∷ is) s =
    step-packet (dwell i) _ is s _ refl refl refl refl (packetize_all-Added is _)
packetize_all-Added (assign i ∷ is) s =
    step-warning (assign i) is s _ refl (packetize_all-Added is _)
packetize_all-Added (mcode i ∷ is) s = step-warning (mcode i) is s _ refl (packetize_all-Added is _)
packetize_all-Added (rapid_traverse_mode a b ∷ is) s =
    step-silent (rapid_traverse_mode a b) is s _ refl refl (packetize_all-Added is s)
packetize_all-Added (tool_radius_comp a b ∷ is) s =
    step-silent (tool_radius_comp a b) is s _ refl refl (packetize_all-Added is s)
packetize_all-Added (working_plane a b ∷ is) s =
    step-silent (working_plane a b) is s _ refl refl (packetize_all-Added is s)
packetize_all-Added (tool_select i ∷ is) s =
    step-silent (tool_select i) is s _ refl refl (packetize_all-Added is s)
packetize_all-Added (tool_change a b ∷ is) s =
    step-silent (tool_change a b) is s _ refl refl (packetize_all-Added is s)
packetize_all-Added (return_boundary a b ∷ is) s =
    step-silent (return_boundary a b) is s _ refl refl (packetize_all-Added is s)
packetize_all-Added (subprogram_call i ∷ is) s =
    step-silent (subprogram_call i) is s _ refl refl (packetize_all-Added is s)
packetize_all-Added (label a b ∷ is) s =
    step-warning (label a b) is s _ refl (packetize_all-Added is _)
packetize_all-Added (goto_ i ∷ is) s = step-warning (goto_ i) is s _ refl (packetize_all-Added is _)
packetize_all-Added (branch_if i ∷ is) s =
    step-warning (branch_if i) is s _ refl (packetize_all-Added is _)
packetize_all-Added (sync a b ∷ is) s =
    step-warning (sync a b) is s _ refl (packetize_all-Added is _)

-- The packets of a program: one for each motion instruction, in order and with its source, numbered
-- 1, 2, 3 and so on; the diagnostics are those of the lowering and one warning for each assignment,
-- M function, label, jump, branch and synchronisation; the rejected lines stay.
pub record IsPacketsOf (r : AilResult) (p : PacketResult) : Type 0 where
  pub ids : map (λ q. q.packet_id) p.packets ≡ count_from 1 (length (motions r.instructions))
  pub sources : map (λ q. q.source) p.packets ≡ map source_of (motions r.instructions)
  pub diagnostics : p.diagnostics ≡ r.diagnostics ++ all_skipped r.instructions
  pub rejected_lines : p.rejected_lines ≡ r.rejected_lines

-- The packets of a program are one for each motion instruction, in order and with its source,
-- numbered on from 1; the diagnostics are those of the lowering, and behind them one warning for
-- each assignment, M function, label, jump, branch and synchronisation; the rejected lines stay.
pub lower_ail_to_packets-IsPacketsOf : (r : AilResult) → IsPacketsOf r (lower_ail_to_packets r)
unfolding lower_ail_to_packets
lower_ail_to_packets-IsPacketsOf r =
    let a =
      packetize_all-Added r.instructions
        (record { packets = []; diagnostics = r.diagnostics; next_packet_id = 1 }) in
    record { ids = a.ids; sources = a.sources; diagnostics = a.diagnostics; rejected_lines = refl }
