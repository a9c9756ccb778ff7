-- ===== src/Engine/Lines/Chunks.antt =====
-- How the cutting of text into lines meets the splitting of the input into chunks.
use experimental_gcode_parse.Prelude.{
  ℕ, Bytes, false, ◌≡◌, refl, List, [], ◌∷◌, ◌++◌, ◌==◌, nat_eq, inl, inr, Bool-cases, arith,
}
use experimental_gcode_parse.Engine.Lines.{cut, put_char, strip_all, complete_lines, newline}

-- The lines of one cut in front of those of another.
abbrev pub before : List Bytes → List Bytes × Bytes → List Bytes × Bytes
before lines (more, rest) = (lines ++ more, rest)

-- Putting a character in front commutes with appending more text behind the cut.
put_char-cut :
    (c : ℕ) (ls : List Bytes) (r bs : Bytes)
    → (c == newline) ≡ false
    → put_char c (before ls (cut (r ++ bs)))
      ≡ before (put_char c (ls, r)).0 (cut ((put_char c (ls, r)).1 ++ bs))
unfolding put_char cut
put_char-cut c [] r bs h = rw h (ground arith)
put_char-cut c (l ∷ ls) r bs h = ground arith

pub cut-append : (xs bs : Bytes) → cut (xs ++ bs) ≡ before (cut xs).0 (cut ((cut xs).1 ++ bs))
unfolding cut
cut-append [] bs = ground arith
cut-append (c ∷ cs) bs = elim (Bool-cases (c == newline)) [
  | inl e ↦ rw (e, cut-append cs bs) (ground arith)
  | inr e ↦ rw (e, cut-append cs bs) (put_char-cut c (cut cs).0 (cut cs).1 bs e)
]

strip_all-append : (ls ms : List Bytes) → strip_all (ls ++ ms) ≡ strip_all ls ++ strip_all ms
unfolding strip_all
strip_all-append [] ms = refl
strip_all-append (l ∷ ls) ms = rw (strip_all-append ls ms)

-- Cutting a text in two steps, with what is left over in front of the second part.
pub complete_lines-append :
    (xs bs : Bytes)
    → complete_lines (xs ++ bs)
      ≡ before (complete_lines xs).0 (complete_lines ((complete_lines xs).1 ++ bs))
unfolding complete_lines
complete_lines-append xs bs =
    rw (cut-append xs bs) (ground (arith, strip_all-append (cut xs).0 (cut ((cut xs).1 ++ bs)).0))
