-- ===== src/Lower/Numbers/Bounds.antt =====
-- parseUnsignedInt64Strict against the number that a text writes, with no bound.
use Prim.Native.Char.{code}
use experimental_gcode_parse.Prelude.{
  ℕ, ◌+◌, ◌-◌, ◌*◌, ◌≤◌, String, ◌&&◌, none, some, ◌≡◌, arith, if◌then◌else◌, leb, is_digit,
}
use experimental_gcode_parse.Lower.Numbers.{
  int64_max, all_digits, is_digits, parse_unsigned_loop, parse_unsigned_int64_strict,
}

-- The number that decimal digits write behind those that make `value`.
pub decimal_from : String → ℕ → ℕ
decimal_from String.[] value = value
decimal_from (String.◌∷◌ c s) value = decimal_from s (value * 10 + (code c - b'0'))

pub decimal : String → ℕ
unfolding decimal_from
decimal text = decimal_from text 0

decimal_from-le : (s : String) (v : ℕ) → v ≤ decimal_from s v
unfolding decimal_from
decimal_from-le String.[] v = omega arith
decimal_from-le (String.◌∷◌ c s) v = omega (arith, decimal_from-le s (v * 10 + (code c - b'0')))

parse_unsigned_loop-decimal :
    (s : String) (v : ℕ)
    → v ≤ int64_max
    → parse_unsigned_loop s v
      ≡ (if all_digits s && leb (decimal_from s v) int64_max then some (decimal_from s v) else none)
unfolding parse_unsigned_loop all_digits decimal_from is_digit
parse_unsigned_loop-decimal String.[] v h = ground arith
parse_unsigned_loop-decimal (String.◌∷◌ c s) v h = ground (
  arith,
  parse_unsigned_loop-decimal s (v * 10 + (code c - b'0')),
  decimal_from-le s (v * 10 + (code c - b'0')),
)

-- Reading a number returns exactly the number that the text writes, where the text is a non-empty
-- row of digits and the number is at most 2^63 - 1, and nothing otherwise.
pub parse_unsigned-decimal :
    (text : String)
    → parse_unsigned_int64_strict text
      ≡ (if is_digits text && leb (decimal text) int64_max then some (decimal text) else none)
unfolding parse_unsigned_int64_strict is_digits decimal
parse_unsigned-decimal text = ground (arith, parse_unsigned_loop-decimal text 0 (omega arith))
