-- ===== src/Lower/Loop.antt =====
-- The loop over the lines and the report of the blocks that are still open: neither throws.
use experimental_gcode_parse.Prelude.{
  ℕ, String, true, false, List, [], ◌∷◌, ◌++◌, some, ◌≡◌, refl, arith, ◌⊎◌, inl, inr, All, IsIn,
  IsIn-append_left, IsIn-append_right, Bool-cases, ◌<◌, ◌||◌, nat_eq, string_eq,
}
use experimental_gcode_parse.Floats.{FloatText}
use experimental_gcode_parse.Ast.{Line, Diagnostic}
use experimental_gcode_parse.Lowering.{
  LowerOptions, RejectedLine, should_skip_line, line_has_error, error_at,
}
use experimental_gcode_parse.Ail.{AilInstruction}
use experimental_gcode_parse.Lower.Blocks.{LowerState, IfLowerContext, get_branch}
use experimental_gcode_parse.Lower.Program.{
  lower_line, lower_lines, missing_endifs, reaches, stop_line_of,
}
use experimental_gcode_parse.Lower.Frame.{written_targets, Entry}
use experimental_gcode_parse.Lower.Open.{end_labels, IsBranch}
use experimental_gcode_parse.Lower.Openings.{IsOpen}
use experimental_gcode_parse.Lower.Steps.{IsOpen-lower_statement}
use experimental_gcode_parse.Engine.Pending.{has_missing_endif}

-- The targets that the lines of a program write down.
abbrev pub all_written : List Line → List String
all_written [] = []
all_written (line ∷ lines) = written_targets line ++ all_written lines

-- A line in front of the first rejected one, where a line was rejected. Line numbers start at 1; a
-- rejected line with the number 0 stops nothing.
abbrev pub IsBefore : List RejectedLine → Line → Type 0
IsBefore [] line = Unit
IsBefore (r ∷ rejected) line = (r.source.line ≡ 0) ⊎ (line.line_index < r.source.line)

-- A line number of the program, of a line that is not skipped and not behind a rejected one.
abbrev pub IsLowered : List Line → LowerOptions → List RejectedLine → ℕ → Type 0
IsLowered lines options rejected n =
    (line : Line) × IsIn line lines
    × (n ≡ line.line_index)
    × (should_skip_line line options ≡ false)
    × IsBefore rejected line

pub reaches-IsBefore :
    (rejected : List RejectedLine) (line : Line)
    → reaches (stop_line_of rejected) line ≡ false
    → IsBefore rejected line
unfolding stop_line_of
reaches-IsBefore [] line e = tt
reaches-IsBefore (r ∷ rejected) line e = ground arith

module _ (num : FloatText) (options : LowerOptions) (es : List (ℕ × AilInstruction))
    (entries : All Entry es) {F : ℕ → Type 0} {written : List String} where
  IsOpen-lower_line :
      (line : Line) (s : LowerState)
      → ((u : String) → IsIn u (written_targets line) → IsIn u written)
      → (should_skip_line line options ≡ false → F line.line_index)
      → IsOpen F written s
      → (t : LowerState) × (lower_line num options es line s ≡ some t) × IsOpen F written t
  unfolding lower_line
  IsOpen-lower_line line s w f o = elim (Bool-cases (should_skip_line line options)) [
    | inl q ↦ (s, rw q refl, o)
    | inr q ↦ elim (Bool-cases (line_has_error s.diagnostics line.line_index)) [
      | inl p ↦ (s, rw (q, p) refl, o)
      | inr p ↦
          let (t, e, o') =
            IsOpen-lower_statement num options es line line.assignment line.if_block_start_statement
              s entries w (f q) o in
          (t, rw (q, p) e, o')
    ]
  ]

  -- The whole loop.
  pub IsOpen-lower_lines :
      (stop_line : ℕ) (lines : List Line) (s : LowerState)
      → ((u : String) → IsIn u (all_written lines) → IsIn u written)
      → ((line : Line)
          → IsIn line lines
          → should_skip_line line options ≡ false
          → reaches stop_line line ≡ false
          → F line.line_index)
      → IsOpen F written s
      → (t : LowerState) × (lower_lines num options es stop_line lines s ≡ some t)
        × IsOpen F written t
  unfolding lower_lines
  IsOpen-lower_lines stop_line [] s w f o = (s, refl, o)
  IsOpen-lower_lines stop_line (line ∷ lines) s w f o = elim (Bool-cases (reaches stop_line line)) [
    | inl q ↦ (s, rw q refl, o)
    | inr q ↦
        let (t, e, o') =
          IsOpen-lower_line line s
            (λ u h. w u (IsIn-append_left u (written_targets line) (all_written lines) h))
            (λ k. f line (inl refl) k q) o in
        let (r, g, o'') =
          IsOpen-lower_lines stop_line lines t
            (λ u h. w u (IsIn-append_right u (written_targets line) (all_written lines) h))
            (λ l h. f l (inr h)) o' in
        (r, rw (q, e) g, o'')
  ]

abbrev missing_at : ℕ → Diagnostic
missing_at line = error_at (record { line = line; column = 1 }) "missing ENDIF for IF block"

-- The blocks that are still open can be reported.
pub missing_endifs-returns :
    (is : List AilInstruction) (stack : List IfLowerContext)
    → All (IsBranch is) stack
    → (ds : List Diagnostic) × (missing_endifs is stack ≡ some ds)
unfolding missing_endifs get_branch
missing_endifs-returns is [] h = ([], refl)
missing_endifs-returns is (ctx ∷ outer) h =
    let (ds, e) = missing_endifs-returns is outer h.1 in
    (ds ++ missing_at h.0.0.source.line ∷ [], rw (e, h.0.1) refl)

pub has_missing_endif-append :
    (xs ys : List Diagnostic)
    → has_missing_endif (xs ++ ys) ≡ (has_missing_endif xs || has_missing_endif ys)
unfolding has_missing_endif
has_missing_endif-append [] ys = refl
has_missing_endif-append (x ∷ xs) ys = ground (arith, has_missing_endif-append xs ys)

-- Where a block is open, the report says so.
missing_endifs-reports :
    (is : List AilInstruction) (ctx : IfLowerContext) (outer : List IfLowerContext)
    (ds : List Diagnostic)
    → missing_endifs is (ctx ∷ outer) ≡ some ds
    → All (IsBranch is) (ctx ∷ outer)
    → has_missing_endif ds ≡ true
unfolding missing_endifs get_branch has_missing_endif
missing_endifs-reports is ctx outer ds e h =
    let (ds', e') = missing_endifs-returns is outer h.1 in
    let last = missing_at h.0.0.source.line ∷ [] in
    let f : some (ds' ++ last) ≡ some ds = rw (e', h.0.1) at e in
    let g : ds' ++ last ≡ ds = ground (arith, f) in
    rw (← g, has_missing_endif-append ds' last) (ground arith)

pub closed :
    (is : List AilInstruction) (stack : List IfLowerContext) (ds : List Diagnostic)
    → missing_endifs is stack ≡ some ds
    → All (IsBranch is) stack
    → has_missing_endif ds ≡ false
    → end_labels stack ≡ []
closed is [] ds e h n = refl
closed is (ctx ∷ outer) ds e h n = let y = missing_endifs-reports is ctx outer ds e h in absurd (cc)
