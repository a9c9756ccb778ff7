-- ===== src/Lower/Numbers.antt =====
-- src/ail.cpp: isDigits and parseUnsignedInt64Strict.
pub mod Bounds
use Prim.Native.Char.{code}
use Prim.Native.String
use experimental_gcode_parse.Prelude.{
  ℕ, ◌+◌, ◌-◌, ◌*◌, ◌/◌, String, Bool, true, false, not, ◌&&◌, ◌||◌, Option, none, some,
  if◌then◌else◌, ltb, is_digit, is_empty,
}

abbrev pub int64_max : ℕ
int64_max = 9223372036854775807

-- The loop of isDigits.
unfoldable pub all_digits : String → Bool
unfolding is_digit
all_digits String.[] = true
all_digits (String.◌∷◌ c s) = is_digit c && all_digits s

-- isDigits
unfoldable pub is_digits : String → Bool
unfolding all_digits
is_digits text = if is_empty text then false else all_digits text

-- The loop of parseUnsignedInt64Strict, with its guard against overflow.
unfoldable pub parse_unsigned_loop : String → ℕ → Option ℕ
unfolding is_digit
parse_unsigned_loop String.[] value = some value
parse_unsigned_loop (String.◌∷◌ c s) value =
    let digit = code c - b'0' in
    let rest = parse_unsigned_loop s (value * 10 + digit) in
    if not (is_digit c) || ltb ((int64_max - digit) / 10) value then none else rest

-- parseUnsignedInt64Strict
unfoldable pub parse_unsigned_int64_strict : String → Option ℕ
unfolding parse_unsigned_loop
parse_unsigned_int64_strict text = if is_empty text then none else parse_unsigned_loop text 0
