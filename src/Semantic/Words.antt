-- ===== src/Semantic/Words.antt =====
-- src/semantic_rules.cpp: the helpers that the rules share.
use Prim.Native.Char.{code}
use experimental_gcode_parse.Prelude.{
  ℕ, ◌+◌, ◌-◌, ◌*◌, ◌/◌, ℤ, pos, String, Bool, true, false, not, ◌&&◌, ◌||◌, Option, none, some,
  if◌then◌else◌, ◌==◌, string_eq, int_eq, nat_eq, ltb, is_empty, to_upper, upper_char,
}
use experimental_gcode_parse.Ast.{Word}
use experimental_gcode_parse.Ail.{has_value}
use experimental_gcode_parse.Messages.Words.{g_code}
use experimental_gcode_parse.Lower.Numbers.{int64_max, all_digits}
use experimental_gcode_parse.Lower.Subprograms.{is_address_letter}

-- isMotionWord: the code, where it returns true
unfoldable pub motion_of_code : ℤ → Option ℤ
motion_of_code code =
    if code == pos 0 || code == pos 1 || code == pos 2 || code == pos 3 || code == pos 4
    then some code
    else none

unfoldable pub is_motion_word : Word → Option ℤ
unfolding motion_of_code g_code
is_motion_word w = elim (g_code w) [ none ↦ none | some code ↦ motion_of_code code ]

-- isCartesianWord
unfoldable pub is_cartesian_word : Word → Bool
is_cartesian_word w = w.head == "X" || w.head == "Y" || w.head == "Z" || w.head == "A"

-- isPolarWord
unfoldable pub is_polar_word : Word → Bool
is_polar_word w = w.head == "AP" || w.head == "RP"

-- isUnsignedIntegerText, and isDigits of ToolSelectorShapeRule
unfoldable pub is_unsigned_integer_text : String → Bool
unfolding all_digits
is_unsigned_integer_text text = if is_empty text then false else all_digits text

-- equalsIgnoreAsciiCase
unfoldable pub equals_ignore_ascii_case : String → String → Bool
equals_ignore_ascii_case String.[] String.[] = true
equals_ignore_ascii_case String.[] (String.◌∷◌ d t) = false
equals_ignore_ascii_case (String.◌∷◌ c s) String.[] = false
equals_ignore_ascii_case (String.◌∷◌ c s) (String.◌∷◌ d t) =
    code (upper_char c) == code (upper_char d) && equals_ignore_ascii_case s t

-- isSubprogramTargetWord, which ignores case
unfoldable pub is_target_word : Word → Bool
unfolding is_address_letter equals_ignore_ascii_case
is_target_word w =
    if w.quoted
    then not (is_empty w.text)
    else if w.has_equal || is_empty w.text || is_empty w.head
    then false
    else if has_value w.value && is_address_letter (to_upper w.head)
    then false
    else not (
        equals_ignore_ascii_case w.head "RET"
        || equals_ignore_ascii_case w.head "RTLION"
        || equals_ignore_ascii_case w.head "RTLIOF")

-- The second loop of parseInt64Strict.
unfoldable pub parse_int64_loop : String → ℕ → Option ℕ
parse_int64_loop String.[] value = some value
parse_int64_loop (String.◌∷◌ c s) value =
    let digit = code c - b'0' in
    let rest = parse_int64_loop s (value * 10 + digit) in
    if ltb ((int64_max - digit) / 10) value then none else rest

-- parseInt64Strict
unfoldable pub parse_int64_strict : String → Option ℕ
unfolding parse_int64_loop all_digits
parse_int64_strict text =
    if is_empty text then none else if not (all_digits text) then none else parse_int64_loop text 0
