-- ===== src/Machine/Blocks.antt =====
-- The modal transitions of one block: none of those accepted is overwritten by another.
use mathlib.Core.Path.{subst}
use experimental_gcode_parse.Prelude.{
  ◌⊎◌, String, true, false, List, [], ◌∷◌, Option, none, some, ◌≡◌, refl, arith, if◌then◌else◌,
  ◌==◌, string_eq, nat_eq, Bool-cases, inl, inr, ==_refl, ==_eq, lookup, insert, All, All-imp,
  Comparable, sym, ◌∙◌, ap,
}
use experimental_gcode_parse.Machine.Registry.{
  ModalGroup, ModalTransition, ModalRegistry, key_of, is_block_scoped, active_code, is_touched,
  is_error_policy, conflicts, conflict_text, store, apply_prior, apply, begin_block,
}

lookup-insert {ℓ κ} :
    {K : Type ℓ} {V : Type κ} ⦃e : Comparable K⦄ (j k : K) (v : V) (m : List (K × V))
    → lookup j (insert k v m) ≡ (if k == j then some v else lookup j m)
unfolding lookup insert
lookup-insert j k v [] = refl
lookup-insert ⦃e⦄ j k v ((i, w) ∷ m) =
    ground (arith, e.same_iff k j, e.same_iff i k, e.same_iff i j, lookup-insert j k v m)

-- A transition noted as accepted, unless it was refused, before the rest of the block.
abbrev pub noted :
    ModalTransition
    → ModalRegistry × Option String
    → (ModalRegistry → ModalRegistry × List ModalTransition)
    → ModalRegistry × List ModalTransition
noted t (r, none) rest = ((rest r).0, t ∷ (rest r).1)
noted t (r, some e) rest = rest r

-- The transitions of a block, applied one after the other: the registry behind them, and those that
-- were accepted. The block goes on behind a transition that is refused.
unfoldable pub apply_block :
    List ModalTransition → ModalRegistry → ModalRegistry × List ModalTransition
unfolding apply
apply_block [] r = (r, [])
apply_block (t ∷ ts) r = noted t (apply t r) (apply_block ts)

-- A transition in force: its group is touched, and its code is the active one.
record IsInForce (r : ModalRegistry) (t : ModalTransition) : Type 0 where
  pub touched : is_touched (key_of t.group) r.touched_groups_this_block ≡ true
  pub active : active_code r t.group ≡ some t.code

active_code-store :
    (t : ModalTransition) (r : ModalRegistry) (g : ModalGroup)
    → active_code (store t r) g
      ≡ (if key_of t.group == key_of g then some t.code else active_code r g)
unfolding store active_code is_block_scoped
active_code-store t r g = ground (
  arith,
  lookup-insert (key_of g) (key_of t.group) t.code r.block_state,
  lookup-insert (key_of g) (key_of t.group) t.code r.persistent_state,
)

-- The touched groups and the profile behind a store.
touched-store :
    (t : ModalTransition) (r : ModalRegistry)
    → (store t r).touched_groups_this_block ≡ key_of t.group ∷ r.touched_groups_this_block
unfolding store
touched-store t r = ground arith

profile-store : (t : ModalTransition) (r : ModalRegistry) → (store t r).profile ≡ r.profile
unfolding store
profile-store t r = ground arith

IsInForce-stored : (t : ModalTransition) (r : ModalRegistry) → IsInForce (store t r) t
unfolding is_touched
IsInForce-stored t r = record {
  touched = rw (touched-store t r) (ground (arith, ==_refl (key_of t.group)));
  active = active_code-store t r t.group ∙ ground (arith, ==_refl (key_of t.group));
}

-- Groups with one key have one active code.
active_code-key :
    (r : ModalRegistry) (g h : ModalGroup) → key_of g ≡ key_of h → active_code r g ≡ active_code r h
unfolding active_code is_block_scoped
active_code-key r g h e = rw (e) refl

-- A transition that is accepted under the strict policy leaves those of the block in force.
keeps :
    (t u : ModalTransition) (r : ModalRegistry)
    → is_error_policy r.profile.modal_conflict_policy ≡ true
    → conflicts t r (active_code r t.group) ≡ false
    → IsInForce r u
    → IsInForce (store t r) u
unfolding conflicts is_touched
keeps t u r strict free f = record {
  touched = rw (touched-store t r) (ground (arith, f.touched));
  active = active_code-store t r u.group ∙ same_code;
}
  where
    same_code :
        (if key_of t.group == key_of u.group then some t.code else active_code r u.group)
        ≡ some u.code
    same_code = elim (Bool-cases (key_of t.group == key_of u.group)) [
      | inr q ↦ rw (q) f.active
      | inl q ↦
          let k : key_of t.group ≡ key_of u.group = ==_eq (key_of t.group) (key_of u.group) q in
          let a : active_code r t.group ≡ some u.code =
            active_code-key r t.group u.group k ∙ f.active in
          let b : conflicts t r (some u.code) ≡ false =
            subst (λ o. conflicts t r o ≡ false) a free in
          let c : is_touched (key_of t.group) r.touched_groups_this_block ≡ true =
            rw (k) f.touched in
          let d : (u.code == t.code) ≡ true = ground (arith, b, c, strict) in
          let e : u.code ≡ t.code = ==_eq u.code t.code d in rw (q) (ap (λ x. some x) (sym e))
    ]

-- What a transition does: it is stored without a conflict, or it is refused and changes nothing.
apply_prior-cases :
    (t : ModalTransition) (r : ModalRegistry) (o : Option String)
    → ((conflicts t r o ≡ false) × (apply_prior t r o ≡ (store t r, none)))
      ⊎ ((x : String) × (apply_prior t r o ≡ (r, some x)))
unfolding apply_prior conflicts
apply_prior-cases t r none = inl (refl, refl)
apply_prior-cases t r (some prior) = elim (Bool-cases (conflicts t r (some prior))) [
  | inl q ↦ inr (conflict_text t prior, rw (q) refl)
  | inr q ↦ inl (q, rw (q) refl)
]

apply_block-IsInForce :
    (ts us : List ModalTransition) (r : ModalRegistry)
    → is_error_policy r.profile.modal_conflict_policy ≡ true
    → All (IsInForce r) us
    → All (IsInForce (apply_block ts r).0) us
      × All (IsInForce (apply_block ts r).0) (apply_block ts r).1
unfolding apply_block apply
apply_block-IsInForce [] us r strict h = (h, tt)
apply_block-IsInForce (t ∷ ts) us r strict h =
    elim (apply_prior-cases t r (active_code r t.group)) [
      | inr q ↦ subst holds (sym (noted_as q.1)) (apply_block-IsInForce ts us r strict h)
      | inl q ↦
          let kept = All-imp us (λ u f. keeps t u r strict q.0 f) h in
          let (k, l) =
            apply_block-IsInForce ts (t ∷ us) (store t r) (rw (profile-store t r) strict)
              (IsInForce-stored t r, kept) in
          subst holds (sym (noted_as q.1)) (k.1, (k.0, l))
    ]
  where
    holds : ModalRegistry × List ModalTransition → Type 0
    holds x = All (IsInForce x.0) us × All (IsInForce x.0) x.1

    noted_as :
        {x : ModalRegistry × Option String}
        → apply_prior t r (active_code r t.group) ≡ x
        → noted t (apply_prior t r (active_code r t.group)) (apply_block ts)
          ≡ noted t x (apply_block ts)
    noted_as e = ap (λ x. noted t x (apply_block ts)) e

-- In a block under the policy that refuses conflicts, also one that goes on behind refused
-- transitions, every transition that was accepted is still in force at the end of the block: the
-- active code of its group is its own, so no other accepted transition of the block has the same
-- group and another code.
pub apply_block-active :
    (ts : List ModalTransition) (r : ModalRegistry)
    → is_error_policy r.profile.modal_conflict_policy ≡ true
    → All
        (λ t. active_code (apply_block ts (begin_block r)).0 t.group ≡ some t.code)
        (apply_block ts (begin_block r)).1
unfolding begin_block
apply_block-active ts r strict =
    All-imp _ (λ t f. f.active) (apply_block-IsInForce ts [] (begin_block r) strict tt).1
