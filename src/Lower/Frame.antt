-- ===== src/Lower/Frame.antt =====
-- Lines that neither open nor close a block only add instructions: what every such addition
-- satisfies, as a lemma for the proofs about the whole loop.
use mathlib.Core.List.{append-nil, append_assoc}
use experimental_gcode_parse.Prelude.{
  ℕ, String, List, [], ◌∷◌, ◌++◌, Option, none, some, ◌≡◌, refl, arith, ◌⊎◌, inl, All, All-append,
  lookup, ◌==◌, string_eq, nat_eq, if_either, ==_eq, ap, ◌∙◌, sym,
}
use experimental_gcode_parse.Ast.{Line, GotoStatement}
use experimental_gcode_parse.Ail.{AilInstruction, goto_, branch_if, source_of, Goto}
use experimental_gcode_parse.Messages.{ParsedMessage, message_source, g0, g1, g2, g3, g4}
use experimental_gcode_parse.Lower.Blocks.{LowerState, emit}
use experimental_gcode_parse.Lower.Words.{to_instruction}
use experimental_gcode_parse.Lower.Lines.{emplace, index_messages}

-- The state `t` has the instructions of `s` and behind them others with the property, and the same
-- open blocks.
pub record Adds (P : AilInstruction → Type 0) (s t : LowerState) : Type 0 where
  pub added : List AilInstruction
  pub instructions : t.instructions ≡ s.instructions ++ added
  pub holds : All P added
  pub if_stack : t.if_stack ≡ s.if_stack
  pub counter : t.generated_label_counter ≡ s.generated_label_counter

module _ {P : AilInstruction → Type 0} where
  pub Adds-nothing :
      (s t : LowerState)
      → t.instructions ≡ s.instructions
      → t.if_stack ≡ s.if_stack
      → t.generated_label_counter ≡ s.generated_label_counter
      → Adds P s t
  Adds-nothing s t e f g = record {
    added = [];
    instructions = e ∙ sym (append-nil s.instructions);
    holds = tt;
    if_stack = f;
    counter = g;
  }

  pub Adds-one : (s : LowerState) (i : AilInstruction) → P i → Adds P s (emit i s)
  Adds-one s i h = record {
    added = i ∷ [];
    instructions = refl;
    holds = (h, tt);
    if_stack = refl;
    counter = refl;
  }

  pub Adds-then : {s t u : LowerState} → Adds P s t → Adds P t u → Adds P s u
  Adds-then {s} a b = record {
    added = a.added ++ b.added;
    instructions =
        b.instructions
        ∙ ap (λ l. l ++ b.added) a.instructions
        ∙ append_assoc s.instructions a.added b.added;
    holds = All-append P a.added b.added a.holds b.holds;
    if_stack = b.if_stack ∙ a.if_stack;
    counter = b.counter ∙ a.counter;
  }

  pub Adds-imp :
      {Q : AilInstruction → Type 0} {s t : LowerState}
      → ((xs : List AilInstruction) → All P xs → All Q xs)
      → Adds P s t
      → Adds Q s t
  Adds-imp f a = record {
    added = a.added;
    instructions = a.instructions;
    holds = f a.added a.holds;
    if_stack = a.if_stack;
    counter = a.counter;
  }

-- The targets of an instruction that jumps.
abbrev pub target_of : Option Goto → List String
target_of none = []
target_of (some g) = g.target ∷ []

abbrev pub jump_targets : AilInstruction → List String
jump_targets (goto_ g) = g.target ∷ []
jump_targets (branch_if b) = b.then_branch.target ∷ target_of b.else_branch
jump_targets _ = []

-- The targets that a line of the program writes down.
abbrev pub written_target : Option GotoStatement → List String
written_target none = []
written_target (some g) = g.target ∷ []

abbrev pub written_targets : Line → List String
written_targets line = elim line.goto_statement [
  | some g ↦ g.target ∷ []
  | none ↦ elim line.if_goto_statement [
    | some g ↦ g.then_branch.target ∷ written_target g.else_branch
    | none ↦ []
  ]
]

-- An instruction of a line of the program: it carries the line's number, and jumps nowhere or where
-- the line says.
pub record IsOf (line : Line) (i : AilInstruction) : Type 0 where
  pub line_of : (source_of i).line ≡ line.line_index
  pub targets : (jump_targets i ≡ []) ⊎ (jump_targets i ≡ written_targets line)

-- An instruction at a line that does not jump.
pub record IsPlain (line : ℕ) (i : AilInstruction) : Type 0 where
  pub line_of : (source_of i).line ≡ line
  pub targets : jump_targets i ≡ []

pub IsPlain-IsOf : (line : Line) (i : AilInstruction) → IsPlain line.line_index i → IsOf line i
IsPlain-IsOf line i h = record { line_of = h.line_of; targets = inl h.targets }

-- The table of messages: the instructions under a line do not jump and carry that line.
abbrev pub Entry : ℕ × AilInstruction → Type 0
Entry (line, i) = IsPlain line i

to_instruction-IsPlain : (m : ParsedMessage) → IsPlain (message_source m).line (to_instruction m)
unfolding to_instruction message_source source_of
to_instruction-IsPlain (g0 m) = record { line_of = refl; targets = refl }
to_instruction-IsPlain (g1 m) = record { line_of = refl; targets = refl }
to_instruction-IsPlain (g2 m) = record { line_of = refl; targets = refl }
to_instruction-IsPlain (g3 m) = record { line_of = refl; targets = refl }
to_instruction-IsPlain (g4 m) = record { line_of = refl; targets = refl }

emplace-Entry :
    (line : ℕ) (i : AilInstruction) (es : List (ℕ × AilInstruction))
    → Entry (line, i)
    → All Entry es
    → All Entry (emplace line i es)
unfolding emplace
emplace-Entry line i [] h k = (h, tt)
emplace-Entry line i ((l, j) ∷ es) h k =
    if_either (λ x. All Entry x) (l == line) k (k.0, emplace-Entry line i es h k.1)

pub index_messages-Entry :
    (ms : List ParsedMessage) (es : List (ℕ × AilInstruction))
    → All Entry es
    → All Entry (index_messages ms es)
unfolding index_messages
index_messages-Entry [] es h = h
index_messages-Entry (m ∷ ms) es h =
    index_messages-Entry ms _ (emplace-Entry _ _ es (to_instruction-IsPlain m) h)

pub lookup-Entry :
    (line : ℕ) (es : List (ℕ × AilInstruction)) (i : AilInstruction)
    → All Entry es
    → lookup line es ≡ some i
    → IsPlain line i
unfolding lookup
lookup-Entry line [] i h e = ground arith
lookup-Entry line ((l, j) ∷ es) i h e =
    ground (arith, e, h.0, ==_eq l line, lookup-Entry line es i h.1)
