-- ===== src/Semantic/Accepted.antt =====
-- What the lowering makes of the M words that MCodeShapeRule accepts.
use Prim.Native.Char.{code}
use mathlib.Core.Path.{subst}
use experimental_gcode_parse.Prelude.{
  ap, ==_eq, ◌==◌, nat_eq, int_eq, if◌then◌else◌, ℕ, ◌+◌, ◌-◌, ◌*◌, ◌≤◌, ℤ, pos, String, Bool, true,
  false, List, [], ◌∷◌, Option, none, some, ◌≡◌, refl, arith, string_eq, leb, leb→le, Bool-cases,
  inl, inr, front_is, IsIn, ◌∙◌, sym,
}
use experimental_gcode_parse.Ast.{Diagnostic, Word, LineItem, word, comment}
use experimental_gcode_parse.Lowering.{SourceInfo, LowerOptions}
use experimental_gcode_parse.Ail.{
  AilInstruction, MCode, has_value, mcode, return_boundary, tool_change,
}
use experimental_gcode_parse.Messages.Words.{g_code}
use experimental_gcode_parse.Lower.Blocks.{LowerState, emit}
use experimental_gcode_parse.Lower.Items.{
  instruction_of_mcode, emit_rapid_mode, emit_radius_comp, emit_plane, emit_tool_select, emit_mcode,
  lower_word_start, lower_word,
}
use experimental_gcode_parse.Lower.Numbers.{
  all_digits, parse_unsigned_loop, parse_unsigned_int64_strict,
}
use experimental_gcode_parse.Lower.Words.{
  m_extension, mcode_from_word, rapid_traverse_mode_from_word, tool_radius_comp_from_word,
  working_plane_from_word, tool_select_from_word, is_tool_selector_head, is_plain_mcode,
  is_return_word, timing_from_options,
}
use experimental_gcode_parse.Semantic.Words.{parse_int64_loop, parse_int64_strict}
use experimental_gcode_parse.Semantic.Codes.{
  mcode_max, is_m_word, mcode_shape, check_m_text, check_m_number, or_else,
}

loops-agree :
    (s : String) (v : ℕ) → all_digits s ≡ true → parse_int64_loop s v ≡ parse_unsigned_loop s v
unfolding parse_int64_loop parse_unsigned_loop all_digits
loops-agree String.[] v h = refl
loops-agree (String.◌∷◌ c s) v h = ground (arith, h, loops-agree s (v * 10 + (code c - b'0')))

no_digits-none : (s : String) (v : ℕ) → all_digits s ≡ false → parse_unsigned_loop s v ≡ none
unfolding parse_unsigned_loop all_digits
no_digits-none String.[] v h = absurd (cc)
no_digits-none (String.◌∷◌ c s) v h = ground (arith, h, no_digits-none s (v * 10 + (code c - b'0')))

-- The strict readers of the rules and of the lowering agree on every text: the one checks all digits
-- first, the other one by one.
pub parse_int64_strict-agrees :
    (text : String) → parse_int64_strict text ≡ parse_unsigned_int64_strict text
unfolding parse_int64_strict parse_unsigned_int64_strict
parse_int64_strict-agrees text = ground (arith, loops-agree text 0, no_digits-none text 0)

-- What the rule has checked of the value of a word.
number-accepted :
    (iso : Bool) (li : List LineItem) (w : Word) (n : Option ℕ)
    → check_m_number iso li w n ≡ none
    → (v : ℕ) × (n ≡ some v) × (v ≤ mcode_max)
unfolding check_m_number
number-accepted iso li w none e = absurd (ground (arith, e))
number-accepted iso li w (some v) e = elim (Bool-cases (leb v mcode_max)) [
  | inl q ↦ (v, refl, leb→le v mcode_max q)
  | inr q ↦ absurd (ground (arith, q, e))
]

text-accepted :
    (iso : Bool) (li : List LineItem) (w : Word) (o : Option String)
    → check_m_text iso li w o ≡ none
    → (text : String) × (o ≡ some text)
      × (v : ℕ) × (parse_unsigned_int64_strict text ≡ some v)
      × (v ≤ mcode_max)
unfolding check_m_text
text-accepted iso li w none e = absurd (ground (arith, e))
text-accepted iso li w (some text) e =
    let (v, n, b) = number-accepted iso li w (parse_int64_strict text) e in
    (text, refl, v, sym (parse_int64_strict-agrees text) ∙ n, b)

or_else-none : (a b : Option Diagnostic) → or_else a b ≡ none → (a ≡ none) × (b ≡ none)
or_else-none none b e = (refl, e)
or_else-none (some d) b e = absurd (ground (arith, e))

item-accepted :
    (iso : Bool) (li items : List LineItem) (w : Word)
    → mcode_shape iso li items ≡ none
    → IsIn (word w) items
    → is_m_word w ≡ true
    → check_m_text iso li w w.value ≡ none
unfolding mcode_shape
item-accepted iso li [] w e i m = absurd i
item-accepted iso li (comment c ∷ items) w e (inl q) m = absurd (ground (arith, q))
item-accepted iso li (comment c ∷ items) w e (inr i) m = item-accepted iso li items w e i m
item-accepted iso li (word u ∷ items) w e (inl q) m =
    let f : w ≡ u = ground (arith, q) in
    let g = (or_else-none _ (mcode_shape iso li items) e).0 in
    let m' : is_m_word u ≡ true = subst (λ x. is_m_word x ≡ true) f m in
    subst (λ x. check_m_text iso li x x.value ≡ none) (sym f) (ground (arith, m', g))
item-accepted iso li (word u ∷ items) w e (inr i) m =
    item-accepted iso li items w (or_else-none _ (mcode_shape iso li items) e).1 i m

mcode_from_word-accepted :
    (iso : Bool) (items : List LineItem) (w : Word) (x : Option ℤ) (source : SourceInfo)
    → mcode_shape iso items items ≡ none
    → IsIn (word w) items
    → is_m_word w ≡ true
    → m_extension w ≡ some x
    → (v : ℕ) × (mcode_from_word w source
        ≡ some (record { source = source; address_extension = x; value = pos v }))
      × (v ≤ mcode_max)
      × (has_value w.value ≡ true)
unfolding mcode_from_word is_m_word
mcode_from_word-accepted iso items w x source e i m h =
    let (text, t, v, n, b) =
      text-accepted iso items w w.value (item-accepted iso items items w e i m) in
    let head : front_is b'M' w.head ≡ true = ground (arith, m) in
    (v, ground (arith, head, t, n, h), b, rw (t) refl)

-- A head with an M in front is no other head.
head-differs :
    (head other : String)
    → front_is b'M' head ≡ true
    → front_is b'M' other ≡ false
    → (head == other) ≡ false
head-differs head other h n = elim (Bool-cases (head == other)) [
  | inr q ↦ q
  | inl q ↦
      let k : front_is b'M' other ≡ true =
        subst (λ t. front_is b'M' t ≡ true) (==_eq head other q) h in
      absurd (ground (arith, k, n))
]

front-differs : (head : String) → front_is b'M' head ≡ true → front_is b'T' head ≡ false
unfolding front_is
front-differs String.[] h = refl
front-differs (String.◌∷◌ c s) h = ground (arith, h)

-- An M word with a value is read as nothing else.
mcode-reads :
    (options : LowerOptions) (source : SourceInfo) (w : Word)
    → front_is b'M' w.head ≡ true
    → has_value w.value ≡ true
    → (rapid_traverse_mode_from_word w ≡ none)
      × (tool_radius_comp_from_word w ≡ none)
      × (working_plane_from_word w ≡ none)
      × (tool_select_from_word w source options ≡ none)
unfolding rapid_traverse_mode_from_word tool_radius_comp_from_word working_plane_from_word
    tool_select_from_word is_tool_selector_head g_code front_is
mcode-reads options source w h v =
    let g = head-differs w.head "G" h refl in
    let t = head-differs w.head "T" h refl in
    let f = front-differs w.head h in
    (ground (arith, v), ground (arith, g), ground (arith, g), ground (arith, t, f))

-- What the loop does with an M word before it reads the M function: nothing.
lower_word_start-mcode :
    (options : LowerOptions) (source : SourceInfo) (w : Word) (s : LowerState)
    → front_is b'M' w.head ≡ true
    → has_value w.value ≡ true
    → lower_word_start options source w s ≡ s
unfolding lower_word_start emit_rapid_mode emit_radius_comp emit_plane emit_tool_select
lower_word_start-mcode options source w s h v =
    let (a, b, c, d) = mcode-reads options source w h v in rw (a, b, c, d) refl

lower_word-mcode :
    (options : LowerOptions) (source : SourceInfo) (w : Word) (m : MCode) (s : LowerState)
    → front_is b'M' w.head ≡ true
    → has_value w.value ≡ true
    → mcode_from_word w source ≡ some m
    → lower_word options source w s ≡ emit (instruction_of_mcode options m) s
unfolding lower_word is_return_word emit_mcode front_is
lower_word-mcode options source w m s h v e =
    rw (head-differs w.head "RET" h refl, lower_word_start-mcode options source w s h v, e) refl

-- The instruction for the M function with a value and an address extension.
abbrev pub instruction_for : LowerOptions → SourceInfo → ℕ → Option ℤ → AilInstruction
instruction_for options source v none =
    if v == 17
    then return_boundary source "M17"
    else if v == 6
    then tool_change source (timing_from_options options)
    else mcode (record { source = source; address_extension = none; value = pos v })
instruction_for options source v (some x) =
    mcode (record { source = source; address_extension = some x; value = pos v })

instruction_of_mcode-cases :
    (options : LowerOptions) (source : SourceInfo) (v : ℕ) (x : Option ℤ)
    → instruction_of_mcode options
        (record { source = source; address_extension = x; value = pos v })
      ≡ instruction_for options source v x
unfolding instruction_of_mcode is_plain_mcode
instruction_of_mcode-cases options source v none = ground arith
instruction_of_mcode-cases options source v (some x) = ground arith

-- On a line that the rule on M functions accepts, every M word whose address extension is readable
-- has a value from 0 to 2147483647, and the loop that lowers the words of a line adds exactly one
-- instruction for it: the return M17 and the tool change M6 where the word has no address extension,
-- and else the M function with its value and extension.
pub accepted-mcode :
    (iso : Bool) (items : List LineItem) (w : Word) (x : Option ℤ) (options : LowerOptions)
    (source : SourceInfo) (s : LowerState)
    → mcode_shape iso items items ≡ none
    → IsIn (word w) items
    → is_m_word w ≡ true
    → m_extension w ≡ some x
    → (v : ℕ) × (v ≤ mcode_max)
      × (mcode_from_word w source
          ≡ some (record { source = source; address_extension = x; value = pos v }))
      × (lower_word options source w s ≡ emit (instruction_for options source v x) s)
unfolding is_m_word
accepted-mcode iso items w x options source s e i m h =
    let (v, n, b, t) = mcode_from_word-accepted iso items w x source e i m h in
    let head : front_is b'M' w.head ≡ true = ground (arith, m) in
    (
      v,
      b,
      n,
      lower_word-mcode options source w _ s head t n
          ∙ ap (λ j. emit j s) (instruction_of_mcode-cases options source v x),
    )
