-- ===== src/Lower/Open.antt =====
-- The blocks that are open: every one stands for a branch in front of it, and every jump has a
-- label, the end of an open block, or a target that the program writes down.
use mathlib.Core.List.{append_assoc}
use experimental_gcode_parse.Prelude.{
  ℕ, zero, suc, String, List, [], ◌∷◌, ◌++◌, some, ◌≡◌, refl, arith, ◌⊎◌, inl, inr, All, All-imp,
  get_elem?, get_elem?-append, IsIn, IsIn-append_left, IsIn-append_right, ap, ◌∙◌, sym,
}
use experimental_gcode_parse.Ail.{AilInstruction, label, branch_if, BranchIf}
use experimental_gcode_parse.Lower.Blocks.{IfLowerContext, retarget, get_branch, set_else_target}
use experimental_gcode_parse.Lower.Frame.{jump_targets}

abbrev pub label_of : AilInstruction → List String
label_of (label s n) = n ∷ []
label_of _ = []

-- The labels of a program.
abbrev pub label_names : List AilInstruction → List String
label_names [] = []
label_names (i ∷ is) = label_of i ++ label_names is

abbrev pub end_labels : List IfLowerContext → List String
end_labels [] = []
end_labels (ctx ∷ outer) = ctx.end_label ∷ end_labels outer

-- A block stands for a branch of the program.
abbrev pub IsBranch : List AilInstruction → IfLowerContext → Type 0
IsBranch is ctx = (b : BranchIf) × (get_elem? is ctx.branch_index ≡ some (branch_if b))

-- Where a jump may go: to a label, to the end of an open block, or to a written target.
abbrev pub IsKnown : List AilInstruction → List IfLowerContext → List String → String → Type 0
IsKnown is stack written t = IsIn t (label_names is) ⊎ (IsIn t (end_labels stack) ⊎ IsIn t written)

abbrev pub AreKnown : List AilInstruction → List IfLowerContext → List String → Type 0
AreKnown is stack written = All (λ i. All (λ t. IsKnown is stack written t) (jump_targets i)) is

pub label_names-append :
    (xs ys : List AilInstruction) → label_names (xs ++ ys) ≡ label_names xs ++ label_names ys
label_names-append [] ys = refl
label_names-append (x ∷ xs) ys =
    ap (λ l. label_of x ++ l) (label_names-append xs ys)
    ∙ sym (append_assoc (label_of x) (label_names xs) (label_names ys))

pub IsIn-label_names_left :
    (t : String) (xs ys : List AilInstruction)
    → IsIn t (label_names xs)
    → IsIn t (label_names (xs ++ ys))
IsIn-label_names_left t xs ys h =
    rw (label_names-append xs ys) (IsIn-append_left t (label_names xs) (label_names ys) h)

pub IsIn-label_names_right :
    (t : String) (xs ys : List AilInstruction)
    → IsIn t (label_names ys)
    → IsIn t (label_names (xs ++ ys))
IsIn-label_names_right t xs ys h =
    rw (label_names-append xs ys) (IsIn-append_right t (label_names xs) (label_names ys) h)

pub branches-append :
    (is ys : List AilInstruction) (stack : List IfLowerContext)
    → All (IsBranch is) stack
    → All (IsBranch (is ++ ys)) stack
branches-append is ys stack h =
    All-imp stack (λ ctx p. (p.0, get_elem?-append is ys ctx.branch_index p.1)) h

-- More labels, and end labels that stay or become labels.
pub IsKnown-imp :
    (written : List String) (is js : List AilInstruction) (stack after : List IfLowerContext)
    → ((t : String) → IsIn t (label_names is) → IsIn t (label_names js))
    → ((t : String)
        → IsIn t (end_labels stack)
        → IsIn t (label_names js) ⊎ IsIn t (end_labels after))
    → (t : String) → IsKnown is stack written t
    → IsKnown js after written t
IsKnown-imp written is js stack after f g t (inl h) = inl (f t h)
IsKnown-imp written is js stack after f g t (inr (inl h)) = elim (g t h) [
  | inl k ↦ inl k
  | inr k ↦ inr (inl k)
]
IsKnown-imp written is js stack after f g t (inr (inr h)) = inr (inr h)

pub targets-imp :
    (written : List String) (is js : List AilInstruction) (stack after : List IfLowerContext)
    → ((t : String) → IsKnown is stack written t → IsKnown js after written t)
    → (xs : List AilInstruction)
    → All (λ i. All (λ t. IsKnown is stack written t) (jump_targets i)) xs
    → All (λ i. All (λ t. IsKnown js after written t) (jump_targets i)) xs
targets-imp written is js stack after f xs h = All-imp xs (λ i k. All-imp (jump_targets i) f k) h

-- One branch of a program has another target for its second jump.
pub data Retargets (target : String) : List AilInstruction → List AilInstruction → Type 0 where
  here :
      {is : List AilInstruction}
      → (b : BranchIf) → Retargets target (branch_if b ∷ is) (branch_if (retarget target b) ∷ is)
  there :
      {is js : List AilInstruction}
      → (i : AilInstruction) → Retargets target is js
      → Retargets target (i ∷ is) (i ∷ js)

pub set_else_target-Retargets :
    (n : ℕ) (target : String) (is : List AilInstruction) (b : BranchIf)
    → get_elem? is n ≡ some (branch_if b)
    → (js : List AilInstruction) × (set_else_target n target is ≡ some js) × Retargets target is js
unfolding set_else_target get_branch
set_else_target-Retargets n target [] b h = absurd (ground arith)
set_else_target-Retargets zero target (i ∷ is) b h =
    let e : i ≡ branch_if b = ground arith in
    (branch_if (retarget target b) ∷ is, rw e, rw e (here b))
set_else_target-Retargets (suc n) target (i ∷ is) b h =
    let (js, e, r) = set_else_target-Retargets n target is b h in (i ∷ js, rw e, there i r)

pub Retargets-labels :
    {target : String} {is js : List AilInstruction}
    → Retargets target is js
    → label_names js ≡ label_names is
Retargets-labels (here b) = refl
Retargets-labels (there i r) = ap (λ l. label_of i ++ l) (Retargets-labels r)

-- A branch stays a branch.
pub Retargets-branch :
    {target : String} {is js : List AilInstruction} (n : ℕ) (b : BranchIf)
    → Retargets target is js
    → get_elem? is n ≡ some (branch_if b)
    → (c : BranchIf) × (get_elem? js n ≡ some (branch_if c))
Retargets-branch {target} zero b (here d) h = (retarget target d, refl)
Retargets-branch (suc n) b (here d) h = (b, h)
Retargets-branch zero b (there i r) h = (b, h)
Retargets-branch (suc n) b (there i r) h = Retargets-branch n b r h

-- What holds of all instructions, and survives the change of one branch, holds after it.
pub Retargets-All :
    (P : AilInstruction → Type 0) {target : String} {is js : List AilInstruction}
    → Retargets target is js
    → ((b : BranchIf) → P (branch_if b) → P (branch_if (retarget target b)))
    → All P is
    → All P js
Retargets-All P (here b) f h = (f b h.0, h.1)
Retargets-All P (there i r) f h = (h.0, Retargets-All P r f h.1)
