-- ===== src/Prelude/Text.antt =====
-- `std::string`: a `String` where the program compares, joins or inspects names and messages, and
-- a list of character codes where it cuts program text into lines.
use Prim.Native.Nat.{ℕ, zero, suc, ◌+◌, ◌-◌, ◌*◌, ◌/◌, ◌%◌}
use Prim.Native.Char.{Char, char, code, nul}
use Prim.Native.String.{String}
use mathlib.Core.Path.{◌≡◌, refl}
use mathlib.Core.Bool.{Bool, true, false, ◌&&◌, ◌||◌}
use mathlib.Core.List.{List, [], ◌∷◌}
use mathlib.Core.Option.{Option, none, some}
use experimental_gcode_parse.Prelude.Tests.{leb, ltb, if◌then◌else◌}
use experimental_gcode_parse.Prelude.Int.{ℤ, pos, negsuc}
use experimental_gcode_parse.Prelude.Equality.{◌==◌, nat_eq}
use experimental_gcode_parse.Prelude.Lists.{get_or}

abbrev pub Bytes : Type 0
Bytes = List ℕ

abbrev pub codes : String → Bytes
codes String.[] = []
codes (String.◌∷◌ c s) = code c ∷ codes s

-- `text.empty()`
unfoldable pub is_empty : String → Bool
is_empty String.[] = true
is_empty (String.◌∷◌ c s) = false

-- `!text.empty() && text.front() == c`
unfoldable pub front_is : ℕ → String → Bool
front_is k String.[] = false
front_is k (String.◌∷◌ c s) = code c == k

-- `text.substr(1)`, the empty text of the empty text
unfoldable pub substr1 : String → String
substr1 String.[] = String.[]
substr1 (String.◌∷◌ c s) = s

abbrev upper_letters : List Char
upper_letters =
    "A" ∷ "B" ∷ "C" ∷ "D" ∷ "E" ∷ "F" ∷ "G" ∷ "H" ∷ "I" ∷ "J" ∷ "K" ∷ "L" ∷ "M" ∷ "N" ∷ "O" ∷ "P"
    ∷ "Q" ∷ "R" ∷ "S" ∷ "T" ∷ "U" ∷ "V" ∷ "W" ∷ "X" ∷ "Y" ∷ "Z" ∷ []

-- `std::toupper` in the C locale
unfoldable pub upper_char : Char → Char
upper_char (char n p) =
    if leb b'a' n && leb n b'z' then get_or upper_letters (n - b'a') nul else char n p

unfoldable pub to_upper : String → String
unfolding upper_char
to_upper String.[] = String.[]
to_upper (String.◌∷◌ c s) = String.◌∷◌ (upper_char c) (to_upper s)

unfoldable pub digit : ℕ → Char
digit d = get_or ("0" ∷ "1" ∷ "2" ∷ "3" ∷ "4" ∷ "5" ∷ "6" ∷ "7" ∷ "8" ∷ "9" ∷ []) d nul

-- The decimal digits in front of a text; the fuel is one more than the number.
unfoldable pub put_digits : ℕ → ℕ → String → String
unfolding digit
put_digits zero n rest = rest
put_digits (suc fuel) n rest =
    let more = put_digits fuel (n / 10) (String.◌∷◌ (digit (n % 10)) rest) in
    if n == 0 then rest else more

-- `std::to_string` of an integer
unfoldable pub to_string : ℤ → String
unfolding put_digits
to_string (pos zero) = "0"
to_string (pos (suc n)) = put_digits (n + 2) (suc n) String.[]
to_string (negsuc n) = String.◌∷◌ "-" (put_digits (n + 2) (suc n) String.[])

unfoldable pub is_digit : Char → Bool
is_digit c = leb b'0' (code c) && leb (code c) b'9'

-- `std::isspace` in the C locale
unfoldable pub is_space : Char → Bool
is_space c = code c == 32 || leb 9 (code c) && leb (code c) 13

-- The number that the leading digits of a text write, given what stands before them; `none` where
-- no digit has been read.
unfoldable pub read_digits : String → Option ℕ → Option ℕ
unfolding is_digit
read_digits String.[] acc = acc
read_digits (String.◌∷◌ c s) acc =
    let more = read_digits s (some (elim acc [ none ↦ 0 | some n ↦ n * 10 ] + (code c - b'0'))) in
    if is_digit c then more else acc

-- `std::stoi` throws out of the range of a 32-bit `int`.
unfoldable pub in_int_range : ℤ → Option ℤ
in_int_range (pos n) = if ltb n 2147483648 then some (pos n) else none
in_int_range (negsuc n) = if ltb n 2147483648 then some (negsuc n) else none

abbrev negate : ℕ → ℤ
negate zero = pos zero
negate (suc n) = negsuc n

unfoldable pub signed : (ℕ → ℤ) → Option ℕ → Option ℤ
unfolding in_int_range
signed f none = none
signed f (some n) = in_int_range (f n)

unfoldable pub read_signed : String → Option ℤ
unfolding read_digits signed
read_signed String.[] = none
read_signed (String.◌∷◌ c s) =
    if code c == b'-'
    then signed negate (read_digits s none)
    else if code c == b'+'
    then signed pos (read_digits s none)
    else signed pos (read_digits (String.◌∷◌ c s) none)

-- `std::stoi`: leading blanks, a sign, digits; `none` where it throws.
unfoldable pub stoi : String → Option ℤ
unfolding is_space read_signed
stoi String.[] = none
stoi (String.◌∷◌ c s) =
    let rest = stoi s in if is_space c then rest else read_signed (String.◌∷◌ c s)

stoi_test : stoi " -120x" ≡ some (negsuc 119)
unfolding stoi
stoi_test = refl

stoi_overflow : stoi "2147483648" ≡ none
unfolding stoi
stoi_overflow = refl

to_string_test : to_string (pos 1907) ≡ "1907"
unfolding to_string
to_string_test = refl

to_upper_test : to_upper "r1_aZ" ≡ "R1_AZ"
unfolding to_upper
to_upper_test = refl
