-- ===== src/Executor/Step/Labels.antt =====
-- src/ail.cpp: the maps that the constructor of AilExecutor fills, against the program's text.
use mathlib.Core.List.{append-nil, append_assoc}
use experimental_gcode_parse.Prelude.{
  ℕ, suc, ◌+◌, ◌<◌, length, All, All-imp, ℤ, String, ◌≡◌, refl, Bool, true, false, inl, inr, List,
  [], ◌∷◌, ◌++◌, Option, none, some, ◌==◌, string_eq, int_eq, if◌then◌else◌, lookup_all, push_at,
  lookup_all-push_at, arith, Bool-cases,
}
use experimental_gcode_parse.Ail.{AilInstruction, label, LabelPositionMap, source_of}
use experimental_gcode_parse.Executor.State.{AilExecutorOptions}
use experimental_gcode_parse.Executor.Step.{
  index_labels, index_line_number, index_line_numbers, make_executor,
}

-- Whether an instruction is the label of that name, or stands in a block of that number.
abbrev pub is_label_of : String → AilInstruction → Bool
is_label_of name (label source n) = n == name
is_label_of name _ = false

abbrev pub has_number : ℤ → Option ℤ → Bool
has_number n none = false
has_number n (some m) = m == n

abbrev pub in_block : ℤ → AilInstruction → Bool
in_block n inst = has_number n (source_of inst).line_number

-- The indices, from `i` on, at which a test holds, in order.
abbrev pub positions : (AilInstruction → Bool) → ℕ → List AilInstruction → List ℕ
positions test i [] = []
positions test i (inst ∷ rest) =
    if test inst then i ∷ positions test (suc i) rest else positions test (suc i) rest

append_if :
    (b : Bool) (ls : List ℕ) (i : ℕ) (ps : List ℕ)
    → (if b then ls ++ i ∷ [] else ls) ++ ps ≡ ls ++ (if b then i ∷ ps else ps)
append_if true ls i ps = append_assoc ls (i ∷ []) ps
append_if false ls i ps = refl

lookup_all-index_labels_from :
    (name : String) (i : ℕ) (insts : List AilInstruction) (m : LabelPositionMap)
    → lookup_all name (index_labels i insts m)
      ≡ lookup_all name m ++ positions (is_label_of name) i insts
unfolding index_labels
lookup_all-index_labels_from name i [] m = rw append-nil
lookup_all-index_labels_from name i (label source n ∷ rest) m =
    rw
      (
        lookup_all-index_labels_from name (suc i) rest (push_at n i m),
        lookup_all-push_at n name i m,
      )
      (append_if (n == name) (lookup_all name m) i (positions (is_label_of name) (suc i) rest))
lookup_all-index_labels_from name i (_ ∷ rest) m = lookup_all-index_labels_from name (suc i) rest m

index_line_number-lookup_all :
    (n : ℤ) (i : ℕ) (number : Option ℤ) (m : List (ℤ × List ℕ))
    → lookup_all n (index_line_number i number m)
      ≡ (if has_number n number then lookup_all n m ++ i ∷ [] else lookup_all n m)
unfolding index_line_number
index_line_number-lookup_all n i none m = refl
index_line_number-lookup_all n i (some k) m = lookup_all-push_at k n i m

lookup_all-index_line_numbers_from :
    (n : ℤ) (i : ℕ) (insts : List AilInstruction) (m : List (ℤ × List ℕ))
    → lookup_all n (index_line_numbers i insts m) ≡ lookup_all n m ++ positions (in_block n) i insts
unfolding index_line_numbers
lookup_all-index_line_numbers_from n i [] m = rw append-nil
lookup_all-index_line_numbers_from n i (inst ∷ rest) m =
    rw
      (
        lookup_all-index_line_numbers_from n (suc i) rest
            (index_line_number i (source_of inst).line_number m),
        index_line_number-lookup_all n i (source_of inst).line_number m,
      )
      (append_if (in_block n inst) (lookup_all n m) i (positions (in_block n) (suc i) rest))

-- The maps of a new executor hold exactly the places of the program: under a label's name the
-- indices of the labels of that name, and under a line number the indices of the instructions of
-- that block, each list in the order of the program.
pub make_executor-positions :
    (insts : List AilInstruction) (options : AilExecutorOptions)
    → ((name : String)
        → lookup_all name (make_executor insts options).label_positions
          ≡ positions (is_label_of name) 0 insts)
      × ((n : ℤ)
          → lookup_all n (make_executor insts options).line_number_positions
            ≡ positions (in_block n) 0 insts)
unfolding make_executor lookup_all
make_executor-positions insts options = (
  λ name. lookup_all-index_labels_from name 0 insts [],
  λ n. lookup_all-index_line_numbers_from n 0 insts [],
)

pub positions-below :
    (test : AilInstruction → Bool) (i : ℕ) (insts : List AilInstruction)
    → All (λ p. p < i + length insts) (positions test i insts)
positions-below test i [] = tt
positions-below test i (inst ∷ rest) =
    let below : All (λ p. p < i + suc (length rest)) (positions test (suc i) rest) =
      All-imp _ (λ p h. omega arith) (positions-below test (suc i) rest) in
    elim (Bool-cases (test inst)) [ inl e ↦ rw e (omega arith, below) | inr e ↦ rw e below ]
