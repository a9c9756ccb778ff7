-- ===== src/Engine/Lines.antt =====
-- Program text cut into lines: the loops of StreamingExecutionEngine::enqueueCompleteLines and
-- ExecutionSession::enqueueCompleteLinesFromBuffer, and the joining of lines.
pub mod Chunks
use experimental_gcode_parse.Prelude.{
  ℕ, Bytes, Bool, true, false, List, [], ◌∷◌, ◌++◌, ◌==◌, nat_eq, if◌then◌else◌,
}

abbrev pub newline : ℕ
newline = 10

abbrev pub carriage_return : ℕ
carriage_return = 13

-- `if (!line.empty() && line.back() == '\r') line.pop_back()`
unfoldable pub strip_cr : Bytes → Bytes
strip_cr [] = []
strip_cr (c ∷ []) = if c == carriage_return then [] else c ∷ []
strip_cr (c ∷ d ∷ rest) = c ∷ strip_cr (d ∷ rest)

-- A character in front of a text that is already cut.
unfoldable pub put_char : ℕ → List Bytes × Bytes → List Bytes × Bytes
put_char c ([], rest) = ([], c ∷ rest)
put_char c (line ∷ lines, rest) = ((c ∷ line) ∷ lines, rest)

unfoldable pub put_newline : List Bytes × Bytes → List Bytes × Bytes
put_newline (lines, rest) = ([] ∷ lines, rest)

-- The texts before each newline, and what stands behind the last one.
unfoldable pub cut : Bytes → List Bytes × Bytes
unfolding put_char put_newline
cut [] = ([], [])
cut (c ∷ cs) = let rest = cut cs in if c == newline then put_newline rest else put_char c rest

unfoldable pub strip_all : List Bytes → List Bytes
unfolding strip_cr
strip_all [] = []
strip_all (line ∷ lines) = strip_cr line ∷ strip_all lines

-- The complete lines of a buffer, and the buffer that remains.
unfoldable pub complete_lines : Bytes → List Bytes × Bytes
unfolding cut strip_all
complete_lines buffer = let (lines, rest) = cut buffer in (strip_all lines, rest)

-- Each line followed by a newline.
unfoldable pub join_lines : List Bytes → Bytes
join_lines [] = []
join_lines (line ∷ lines) = line ++ (newline ∷ join_lines lines)
