-- ===== src/Floats.antt =====
-- `double`: a value is its 64-bit pattern, and the arithmetic of the processor is a record of
-- operations on patterns that the definitions take as an argument. The pattern of `0.0` is 0.
use experimental_gcode_parse.Prelude.{ℕ, ℤ, String, Bool, Option}

abbrev pub Double : Type 0
Double = ℕ

abbrev pub zero_double : Double
zero_double = 0

-- `+`, `-`, `*`, `/`, unary `-`, `==`, `!=`, `<` and `<=` on doubles; `a > b` is written `lt b a`, and
-- `a >= b` is written `le b a`.
pub record FloatOps : Type 0 where
  pub add : Double → Double → Double
  pub sub : Double → Double → Double
  pub mul : Double → Double → Double
  pub div : Double → Double → Double
  pub neg : Double → Double
  pub eq : Double → Double → Bool
  pub ne : Double → Double → Bool
  pub lt : Double → Double → Bool
  pub le : Double → Double → Bool

-- `std::stod` (`none` where it throws), `std::floor`, the cast to `int64_t` and `std::to_string` of a
-- double, beside its arithmetic.
pub record FloatText : Type 0 where
  pub ops : FloatOps
  pub stod : String → Option Double
  pub floor : Double → Double
  pub to_int64 : Double → ℤ
  pub double_to_string : Double → String
