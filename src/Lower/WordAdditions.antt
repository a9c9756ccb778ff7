-- ===== src/Lower/WordAdditions.antt =====
-- What a word adds to the lowered program: instructions of its line, which jump nowhere.
use experimental_gcode_parse.Prelude.{
  ℕ, pos, List, [], ◌∷◌, Option, none, some, ◌≡◌, refl, arith, ◌==◌, string_eq, nat_eq, if_either,
  ap, ◌∙◌,
}
use experimental_gcode_parse.Floats.{FloatText}
use experimental_gcode_parse.Ast.{LineItem, Word, word, comment, Assignment}
use experimental_gcode_parse.Lowering.{LowerOptions, SourceInfo}
use experimental_gcode_parse.Ail.{
  AilInstruction, linear_move, arc_move, dwell, mcode, rapid_traverse_mode, tool_radius_comp,
  working_plane, tool_select, tool_change, return_boundary, subprogram_call, assign, label, goto_,
  branch_if, sync, source_of, MCode, ToolSelect, ToolRadiusCompMode, RapidInterpolationMode,
  WorkingPlane, LinearMove,
}
use experimental_gcode_parse.Lower.Blocks.{LowerState}
use experimental_gcode_parse.Lower.Words.{
  mcode_from_word, tool_select_from_word, tool_select_from_assignment, is_return_word,
  is_plain_mcode,
}
use experimental_gcode_parse.Lower.Axes.{
  apply_linear_move_axis_values, apply_axis_word, is_axis_head, set_axis,
}
use experimental_gcode_parse.Lower.Items.{
  instruction_of_mcode, emit_rapid_mode, emit_radius_comp, emit_plane, emit_tool_select, emit_mcode,
  lower_word_start, lower_word, lower_words, complete_motion,
}
use experimental_gcode_parse.Lower.Frame.{Adds, Adds-nothing, Adds-one, Adds-then, IsPlain}

-- A part of a round: what it adds is plain at the line.
abbrev pub AddsPlain : ℕ → LowerState → LowerState → Type 0
AddsPlain line s t = Adds (IsPlain line) s t

emit_rapid_mode-Adds :
    (source : SourceInfo) (o : Option RapidInterpolationMode) (s : LowerState)
    → AddsPlain source.line s (emit_rapid_mode source o s)
unfolding emit_rapid_mode source_of
emit_rapid_mode-Adds source none s = Adds-nothing s s refl refl refl
emit_rapid_mode-Adds source (some mode) s = record {
  added = rapid_traverse_mode source mode ∷ [];
  instructions = refl;
  holds = (record { line_of = refl; targets = refl }, tt);
  if_stack = refl;
  counter = refl;
}

emit_radius_comp-Adds :
    (source : SourceInfo) (o : Option ToolRadiusCompMode) (s : LowerState)
    → AddsPlain source.line s (emit_radius_comp source o s)
unfolding emit_radius_comp source_of
emit_radius_comp-Adds source none s = Adds-nothing s s refl refl refl
emit_radius_comp-Adds source (some mode) s =
    Adds-one s _ (record { line_of = refl; targets = refl })

emit_plane-Adds :
    (source : SourceInfo) (o : Option WorkingPlane) (s : LowerState)
    → AddsPlain source.line s (emit_plane source o s)
unfolding emit_plane source_of
emit_plane-Adds source none s = Adds-nothing s s refl refl refl
emit_plane-Adds source (some plane) s = record {
  added = working_plane source plane ∷ [];
  instructions = refl;
  holds = (record { line_of = refl; targets = refl }, tt);
  if_stack = refl;
  counter = refl;
}

emit_tool_select-Adds :
    (line : ℕ) (o : Option ToolSelect) (s : LowerState)
    → ((t : ToolSelect) → o ≡ some t → t.source.line ≡ line)
    → AddsPlain line s (emit_tool_select o s)
unfolding emit_tool_select source_of
emit_tool_select-Adds line none s h = Adds-nothing s s refl refl refl
emit_tool_select-Adds line (some t) s h =
    Adds-one s _ (record { line_of = h t refl; targets = refl })

instruction_of_mcode-IsPlain :
    (options : LowerOptions) (m : MCode) → IsPlain m.source.line (instruction_of_mcode options m)
unfolding instruction_of_mcode source_of
instruction_of_mcode-IsPlain options m =
    if_either (IsPlain m.source.line) (is_plain_mcode (pos 17) m)
      (record { line_of = refl; targets = refl })
      (if_either (IsPlain m.source.line) (is_plain_mcode (pos 6) m)
        (record { line_of = refl; targets = refl }) (record { line_of = refl; targets = refl }))

emit_mcode-Adds :
    (line : ℕ) (options : LowerOptions) (o : Option MCode) (s : LowerState)
    → ((m : MCode) → o ≡ some m → m.source.line ≡ line)
    → AddsPlain line s (emit_mcode options o s)
unfolding emit_mcode
emit_mcode-Adds line options none s h = Adds-nothing s s refl refl refl
emit_mcode-Adds line options (some m) s h =
    Adds-one s _ (rw (← h m refl) (instruction_of_mcode-IsPlain options m))

tool_select_from_word-source :
    (w : Word) (source : SourceInfo) (options : LowerOptions) (t : ToolSelect)
    → tool_select_from_word w source options ≡ some t
    → t.source.line ≡ source.line
unfolding tool_select_from_word
tool_select_from_word-source w source options t e = ground arith

mcode_from_word-source :
    (w : Word) (source : SourceInfo) (m : MCode)
    → mcode_from_word w source ≡ some m
    → m.source.line ≡ source.line
unfolding mcode_from_word
mcode_from_word-source w source m e = ground arith

pub tool_select_from_assignment-source :
    (num : FloatText) (a : Assignment) (source : SourceInfo) (options : LowerOptions)
    (t : ToolSelect)
    → tool_select_from_assignment num a source options ≡ some t
    → t.source.line ≡ source.line
unfolding tool_select_from_assignment
tool_select_from_assignment-source num a source options t e = ground arith

lower_word_start-Adds :
    (options : LowerOptions) (source : SourceInfo) (w : Word) (s : LowerState)
    → AddsPlain source.line s (lower_word_start options source w s)
unfolding lower_word_start
lower_word_start-Adds options source w s = Adds-then (emit_rapid_mode-Adds source _ s) (
    Adds-then (emit_radius_comp-Adds source _ _) (
      Adds-then (emit_plane-Adds source _ _)
        (emit_tool_select-Adds source.line _ _ (tool_select_from_word-source w source options))))

lower_word-Adds :
    (options : LowerOptions) (source : SourceInfo) (w : Word) (s : LowerState)
    → AddsPlain source.line s (lower_word options source w s)
unfolding lower_word source_of
lower_word-Adds options source w s =
    if_either (AddsPlain source.line s) (is_return_word w)
      (Adds-then (lower_word_start-Adds options source w s)
        (Adds-one _ _ (record { line_of = refl; targets = refl })))
      (Adds-then (lower_word_start-Adds options source w s)
        (emit_mcode-Adds source.line options _ _ (mcode_from_word-source w source)))

pub lower_words-Adds :
    (options : LowerOptions) (source : SourceInfo) (items : List LineItem) (s : LowerState)
    → AddsPlain source.line s (lower_words options source items s)
unfolding lower_words
lower_words-Adds options source [] s = Adds-nothing s s refl refl refl
lower_words-Adds options source (comment c ∷ items) s = lower_words-Adds options source items s
lower_words-Adds options source (word w ∷ items) s =
    Adds-then (lower_word-Adds options source w s) (lower_words-Adds options source items _)

apply_axis_word-source :
    (num : FloatText) (w : Word) (m : LinearMove) → (apply_axis_word num w m).source ≡ m.source
unfolding apply_axis_word set_axis
apply_axis_word-source num w m = ground arith

apply_axes-source :
    (num : FloatText) (items : List LineItem) (m : LinearMove)
    → (apply_linear_move_axis_values num items m).source ≡ m.source
unfolding apply_linear_move_axis_values
apply_axes-source num [] m = refl
apply_axes-source num (comment c ∷ items) m = apply_axes-source num items m
apply_axes-source num (word w ∷ items) m =
    apply_axes-source num items _
    ∙ if_either (λ (k : LinearMove). k.source ≡ m.source) (is_axis_head w.head)
        (apply_axis_word-source num w m) refl

pub complete_motion-IsPlain :
    (line : ℕ) (num : FloatText) (items : List LineItem) (s : LowerState) (i : AilInstruction)
    → IsPlain line i
    → IsPlain line (complete_motion num items s i)
unfolding complete_motion source_of
complete_motion-IsPlain line num items s (linear_move m) h =
    if_either (IsPlain line) ((apply_linear_move_axis_values num items m).opcode == "G0")
      (record { line_of = ap_line ∙ h.line_of; targets = refl })
      (record { line_of = ap_line ∙ h.line_of; targets = refl })
  where
    ap_line : (apply_linear_move_axis_values num items m).source.line ≡ m.source.line
    ap_line = ap (λ (x : SourceInfo). x.line) (apply_axes-source num items m)
complete_motion-IsPlain line num items s (arc_move m) h = record {
  line_of = h.line_of;
  targets = refl;
}
complete_motion-IsPlain line num items s (dwell m) h = h
complete_motion-IsPlain line num items s (mcode m) h = h
complete_motion-IsPlain line num items s (rapid_traverse_mode m n) h = h
complete_motion-IsPlain line num items s (tool_radius_comp m n) h = h
complete_motion-IsPlain line num items s (working_plane m n) h = h
complete_motion-IsPlain line num items s (tool_select m) h = h
complete_motion-IsPlain line num items s (tool_change m n) h = h
complete_motion-IsPlain line num items s (return_boundary m n) h = h
complete_motion-IsPlain line num items s (subprogram_call m) h = h
complete_motion-IsPlain line num items s (assign m) h = h
complete_motion-IsPlain line num items s (label m n) h = h
complete_motion-IsPlain line num items s (goto_ m) h = h
complete_motion-IsPlain line num items s (branch_if m) h = h
complete_motion-IsPlain line num items s (sync m n) h = h
