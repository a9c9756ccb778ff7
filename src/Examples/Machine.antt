-- ===== src/Examples/Machine.antt =====
-- The work offsets of the baseline profile, and a block with two modal transitions.
use experimental_gcode_parse.Prelude.{ℤ, pos, true, List, [], ◌∷◌, some, ◌≡◌, refl, ◌↔◌, All}
use experimental_gcode_parse.Machine.Profile.{
  contains, add_ranges, empty_set, IsWithin, contains-IsWithin, siemens_840d_baseline,
}
use experimental_gcode_parse.Machine.Registry.{
  ModalTransition, ModalRegistry, ModalGroup, make_registry, active_code, begin_block, apply,
  is_error_policy,
}
use experimental_gcode_parse.Machine.Blocks.{apply_block, apply_block-active}

abbrev offsets : List (ℤ × ℤ)
offsets = (pos 54, pos 57) ∷ (pos 599, pos 505) ∷ []

contains-IsWithin_example :
    (contains (add_ranges offsets empty_set) (pos 54) ≡ true) ↔ IsWithin (pos 54) offsets
contains-IsWithin_example = contains-IsWithin offsets (pos 54)

-- The second motion of the block is refused.
abbrev block : List ModalTransition
block =
    record { group = ModalGroup.motion; code = "G1" }
    ∷ record { group = ModalGroup.motion; code = "G2" }
    ∷ record { group = ModalGroup.plane; code = "G18" }
    ∷ []

abbrev registry : ModalRegistry
unfolding make_registry siemens_840d_baseline
registry = make_registry siemens_840d_baseline

apply_block-active_example :
    All
      (λ (t : ModalTransition).
        active_code (apply_block block (begin_block registry)).0 t.group ≡ some t.code)
      (record { group = ModalGroup.motion; code = "G1" }
        ∷ record { group = ModalGroup.plane; code = "G18" }
        ∷ [])
unfolding apply_block apply begin_block make_registry siemens_840d_baseline is_error_policy
apply_block-active_example = apply_block-active block registry refl
