-- ===== src/Prelude/Equality.antt =====
-- The types that the program compares: `operator==` with what it means.
use Prim.Native.Nat.{ℕ}
use Prim.Native.String.{String}
use mathlib.Core.Path.{◌≡◌, refl}
use mathlib.Core.Logic.{◌↔◌}
use mathlib.Core.Bool.{Bool, true}
use text.Mathlib.Text.{◌==◌ as str_eq}
use text.Mathlib.TextEquality.{eq_iff}
use experimental_gcode_parse.Prelude.Tests.{nat_beq, nat_beq_iff}
use experimental_gcode_parse.Prelude.Int.{ℤ, int_beq, int_beq_iff}

-- A test and the proof that it holds of equal values only.
pub record Comparable {ℓ} (T : Type ℓ) : Type ℓ where
  pub same : T → T → Bool
  pub same_iff : (s t : T) → (same s t ≡ true) ↔ (s ≡ t)

instance abbrev pub int_eq : Comparable ℤ
int_eq = record { same_iff = int_beq_iff; same = int_beq }

instance abbrev pub string_eq : Comparable String
string_eq = record { same_iff = eq_iff; same = str_eq }

instance abbrev pub nat_eq : Comparable ℕ
nat_eq = record { same_iff = nat_beq_iff; same = nat_beq }

infix 50 ◌==◌
abbrev pub ◌==◌ {ℓ} : {T : Type ℓ} ⦃c : Comparable T⦄ → T → T → Bool
◌==◌ ⦃c⦄ = c.same

pub ==_refl {ℓ} : {T : Type ℓ} ⦃c : Comparable T⦄ → (t : T) → (t == t) ≡ true
==_refl ⦃c⦄ t = (c.same_iff t t).1 refl

pub ==_eq {ℓ} : {T : Type ℓ} ⦃c : Comparable T⦄ → (s t : T) → (s == t) ≡ true → s ≡ t
==_eq ⦃c⦄ s t h = (c.same_iff s t).0 h
