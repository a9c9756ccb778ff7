-- ===== src/Machine/Profile.antt =====
-- src/machine_profile.h and src/machine_profile.cpp: ranges of numbers and the machine profile.
use experimental_gcode_parse.Prelude.{
  ℤ, pos, Bool, true, false, ◌&&◌, ◌||◌, List, [], ◌∷◌, ◌++◌, ◌≡◌, ◌↔◌, inl, inr, refl, arith,
  if◌then◌else◌, leb_ℤ, IsIn, ◌≤◌, pos_part, neg_part, ◌+◌, Bool-cases, ap, sym, ◌∙◌,
}
use experimental_gcode_parse.Lowering.{ToolChangeMode, ErrorPolicy}

pub data ControllerKind : Type 0 where
  generic siemens_840d : ControllerKind

-- RangeSet
pub record RangeSet : Type 0 where
  pub ranges : List (ℤ × ℤ)

-- RangeSet::add
unfoldable pub add_range : ℤ → ℤ → RangeSet → RangeSet
add_range min_inclusive max_inclusive r =
    if leb_ℤ min_inclusive max_inclusive
    then record { ranges = r.ranges ++ (min_inclusive, max_inclusive) ∷ [] }
    else r

unfoldable pub in_ranges : List (ℤ × ℤ) → ℤ → Bool
in_ranges [] value = false
in_ranges ((min_inclusive, max_inclusive) ∷ ranges) value =
    leb_ℤ min_inclusive value && leb_ℤ value max_inclusive || in_ranges ranges value

-- RangeSet::contains
unfoldable pub contains : RangeSet → ℤ → Bool
unfolding in_ranges
contains r value = in_ranges r.ranges value

pub record MachineProfile : Type 0 where
  pub controller : ControllerKind
  pub tool_change_mode : ToolChangeMode
  pub tool_management : Bool
  pub unknown_mcode_policy : ErrorPolicy
  pub modal_conflict_policy : ErrorPolicy
  pub supported_work_offsets : RangeSet

-- MachineProfile::siemens840dBaseline
unfoldable pub siemens_840d_baseline : MachineProfile
unfolding add_range
siemens_840d_baseline = record {
  controller = siemens_840d;
  tool_change_mode = ToolChangeMode.deferred_m6;
  tool_management = false;
  unknown_mcode_policy = ErrorPolicy.error;
  modal_conflict_policy = ErrorPolicy.error;
  supported_work_offsets =
      add_range (pos 505) (pos 599) (add_range (pos 54) (pos 57) (record { ranges = [] }));
}

-- The ranges that are asked to be added, in order.
unfoldable pub add_ranges : List (ℤ × ℤ) → RangeSet → RangeSet
unfolding add_range
add_ranges [] r = r
add_ranges ((min_inclusive, max_inclusive) ∷ more) r =
    add_ranges more (add_range min_inclusive max_inclusive r)

-- `a` is at most `b`.
infix 50 ◌≤ℤ◌
abbrev pub ◌≤ℤ◌ : ℤ → ℤ → Type 0
a ≤ℤ b = pos_part a + neg_part b ≤ pos_part b + neg_part a

-- A value between the bounds of one of the ranges.
abbrev pub IsWithin : ℤ → List (ℤ × ℤ) → Type 0
IsWithin value ranges = (lo : ℤ) × (hi : ℤ) × IsIn (lo, hi) ranges × (lo ≤ℤ value) × (value ≤ℤ hi)

in_ranges-IsWithin :
    (ranges : List (ℤ × ℤ)) (value : ℤ) → in_ranges ranges value ≡ true → IsWithin value ranges
unfolding in_ranges
in_ranges-IsWithin [] value e = absurd (cc)
in_ranges-IsWithin ((lo, hi) ∷ ranges) value e =
    elim (Bool-cases (leb_ℤ lo value && leb_ℤ value hi)) [
      | inl q ↦ (lo, hi, inl refl, ground (arith, q), ground (arith, q))
      | inr q ↦
          let (l, h, i, a, b) = in_ranges-IsWithin ranges value (ground (arith, q, e)) in
          (l, h, inr i, a, b)
    ]

IsWithin-in_ranges :
    (ranges : List (ℤ × ℤ)) (value lo hi : ℤ)
    → IsIn (lo, hi) ranges
    → lo ≤ℤ value
    → value ≤ℤ hi
    → in_ranges ranges value ≡ true
unfolding in_ranges
IsWithin-in_ranges [] value lo hi i a b = absurd i
IsWithin-in_ranges ((l, h) ∷ ranges) value lo hi (inl e) a b =
    let e0 : lo ≡ l = ap (λ (x : ℤ × ℤ). x.0) e in
    let e1 : hi ≡ h = ap (λ (x : ℤ × ℤ). x.1) e in
    let u : leb_ℤ l value ≡ true = rw (← e0) (ground arith) in
    let v : leb_ℤ value h ≡ true = rw (← e1) (ground arith) in ground (arith, u, v)
IsWithin-in_ranges ((l, h) ∷ ranges) value lo hi (inr i) a b =
    let r = IsWithin-in_ranges ranges value lo hi i a b in ground (arith, r)

in_ranges-append :
    (rs ts : List (ℤ × ℤ)) (value : ℤ)
    → in_ranges (rs ++ ts) value ≡ (in_ranges rs value || in_ranges ts value)
unfolding in_ranges
in_ranges-append [] ts value = refl
in_ranges-append ((lo, hi) ∷ rs) ts value = ground (arith, in_ranges-append rs ts value)

-- An empty range holds no value, so leaving it out makes no difference.
in_ranges-add_range :
    (lo hi value : ℤ) (r : RangeSet)
    → in_ranges (add_range lo hi r).ranges value
      ≡ (in_ranges r.ranges value || leb_ℤ lo value && leb_ℤ value hi)
unfolding add_range in_ranges
in_ranges-add_range lo hi value r = elim (Bool-cases (leb_ℤ lo hi)) [
  | inl q ↦ rw (q, in_ranges-append r.ranges ((lo, hi) ∷ []) value) (ground arith)
  | inr q ↦
      let none_between : (leb_ℤ lo value && leb_ℤ value hi) ≡ false = ground (arith, q) in
      rw (q, none_between) (ground arith)
]

in_ranges-add_ranges :
    (rs : List (ℤ × ℤ)) (value : ℤ) (r : RangeSet)
    → in_ranges (add_ranges rs r).ranges value ≡ (in_ranges r.ranges value || in_ranges rs value)
unfolding add_ranges in_ranges
in_ranges-add_ranges [] value r = ground arith
in_ranges-add_ranges ((lo, hi) ∷ rs) value r =
    ground
      (arith, in_ranges-add_ranges rs value (add_range lo hi r), in_ranges-add_range lo hi value r)

abbrev pub empty_set : RangeSet
empty_set = record { ranges = [] }

-- A set of ranges contains exactly the numbers within the bounds, both included, of a range that was
-- added to it; a range whose bounds are the wrong way round adds nothing.
pub contains-IsWithin :
    (rs : List (ℤ × ℤ)) (value : ℤ)
    → (contains (add_ranges rs empty_set) value ≡ true) ↔ IsWithin value rs
unfolding contains in_ranges
contains-IsWithin rs value =
    let e : in_ranges (add_ranges rs empty_set).ranges value ≡ in_ranges rs value =
      in_ranges-add_ranges rs value empty_set in
    (
      (λ h. in_ranges-IsWithin rs value (sym e ∙ h)),
      (λ w. e ∙ IsWithin-in_ranges rs value w.0 w.1 w.2 w.3 w.4),
    )
