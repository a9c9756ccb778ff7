-- ===== src/Machine/Registry.antt =====
-- src/modal_registry.h and src/modal_registry.cpp: the active code of each modal group. The hash
-- maps are association lists, the set of touched groups is a list that is only searched.
use experimental_gcode_parse.Prelude.{
  ℕ, String, Bool, true, false, not, ◌&&◌, ◌||◌, List, [], ◌∷◌, Option, none, some, if◌then◌else◌,
  ◌==◌, string_eq, nat_eq, ◌+++◌, to_string, pos, lookup, insert,
}
use experimental_gcode_parse.Lowering.{ErrorPolicy}
use experimental_gcode_parse.Ail.{has_value}
use experimental_gcode_parse.Machine.Profile.{MachineProfile}

pub data ModalGroup : Type 0 where
  motion plane tool_radius_comp work_offset exact_stop_path_control exact_stop_one_shot : ModalGroup
  exact_stop_criterion units dimensions feed_type : ModalGroup

-- `static_cast<int>(group)`
unfoldable pub key_of : ModalGroup → ℕ
key_of motion = 1
key_of plane = 6
key_of tool_radius_comp = 7
key_of work_offset = 8
key_of exact_stop_path_control = 10
key_of exact_stop_one_shot = 11
key_of exact_stop_criterion = 12
key_of units = 13
key_of dimensions = 14
key_of feed_type = 15

pub record ModalTransition : Type 0 where
  pub group : ModalGroup
  pub code : String

pub record ModalRegistry : Type 0 where
  pub profile : MachineProfile
  pub persistent_state : List (ℕ × String)
  pub block_state : List (ℕ × String)
  pub touched_groups_this_block : List ℕ

-- The constructor
unfoldable pub make_registry : MachineProfile → ModalRegistry
make_registry profile = record {
  profile = profile;
  persistent_state = [];
  block_state = [];
  touched_groups_this_block = [];
}

-- ModalRegistry::beginBlock
unfoldable pub begin_block : ModalRegistry → ModalRegistry
begin_block r = record r { block_state = []; touched_groups_this_block = [] }

-- ModalRegistry::isBlockScoped
unfoldable pub is_block_scoped : ModalGroup → Bool
unfolding key_of
is_block_scoped group = key_of group == 11

-- ModalRegistry::activeCode
unfoldable pub active_code : ModalRegistry → ModalGroup → Option String
unfolding is_block_scoped lookup
active_code r group =
    if is_block_scoped group
    then lookup (key_of group) r.block_state
    else lookup (key_of group) r.persistent_state

-- ModalRegistry::hasActiveCode
unfoldable pub has_active_code : ModalRegistry → ModalGroup → Bool
unfolding active_code
has_active_code r group = has_value (active_code r group)

unfoldable pub is_touched : ℕ → List ℕ → Bool
is_touched key [] = false
is_touched key (k ∷ ks) = k == key || is_touched key ks

unfoldable pub is_error_policy : ErrorPolicy → Bool
is_error_policy ErrorPolicy.error = true
is_error_policy ErrorPolicy.warning = false
is_error_policy ErrorPolicy.ignore = false

-- Whether the block has a code of the group that differs, under the policy that refuses it.
unfoldable pub conflicts : ModalTransition → ModalRegistry → Option String → Bool
unfolding is_error_policy is_touched
conflicts t r none = false
conflicts t r (some prior) =
    is_touched (key_of t.group) r.touched_groups_this_block
    && (not (prior == t.code) && is_error_policy r.profile.modal_conflict_policy)

unfoldable pub conflict_text : ModalTransition → String → String
conflict_text t prior =
    "modal conflict in block for group "
    +++ (to_string (pos (key_of t.group))
        +++ (": '" +++ (prior +++ ("' vs '" +++ (t.code +++ "'")))))

-- The writes of ModalRegistry::apply.
unfoldable pub store : ModalTransition → ModalRegistry → ModalRegistry
unfolding insert is_block_scoped
store t r =
    let key = key_of t.group in
    let touched : ModalRegistry = record r {
      touched_groups_this_block = key ∷ r.touched_groups_this_block;
    } in
    if is_block_scoped t.group
    then record touched { block_state = insert key t.code r.block_state }
    else record touched { persistent_state = insert key t.code r.persistent_state }

-- ModalRegistry::apply: the registry, and the error where it returns false
unfoldable pub apply_prior :
    ModalTransition → ModalRegistry → Option String → ModalRegistry × Option String
unfolding conflicts store conflict_text
apply_prior t r none = (store t r, none)
apply_prior t r (some prior) =
    if conflicts t r (some prior) then (r, some (conflict_text t prior)) else (store t r, none)

unfoldable pub apply : ModalTransition → ModalRegistry → ModalRegistry × Option String
unfolding apply_prior active_code
apply t r = apply_prior t r (active_code r t.group)
