-- ===== src/Lowering.antt =====
-- include/gcode/lowering_types.h and include/gcode/policy_types.h.
use experimental_gcode_parse.Prelude.{
  ℕ, ℤ, String, Bool, true, false, List, [], ◌∷◌, ◌&&◌, ◌||◌, Option, none, some, if◌then◌else◌,
  ◌==◌, nat_eq, int_eq, pos,
}
use experimental_gcode_parse.Floats.{Double}
use experimental_gcode_parse.Ast.{Diagnostic, Severity, Line, Location}

pub data ToolChangeMode : Type 0 where
  direct_t deferred_m6 : ToolChangeMode

pub data ErrorPolicy : Type 0 where
  error warning ignore : ErrorPolicy

pub record SourceInfo : Type 0 where
  pub filename : Option String
  pub line : ℕ
  pub line_number : Option ℤ

pub record Pose6 : Type 0 where
  pub x : Option Double
  pub y : Option Double
  pub z : Option Double
  pub a : Option Double
  pub b : Option Double
  pub c : Option Double

pub data ModalGroupId : Type 0 where
  motion non_modal : ModalGroupId

pub record ModalState : Type 0 where
  pub group : ModalGroupId
  pub code : String
  pub updates_state : Bool

pub record ArcParams : Type 0 where
  pub i : Option Double
  pub j : Option Double
  pub k : Option Double
  pub r : Option Double

pub data DwellMode : Type 0 where
  seconds revolutions : DwellMode

pub record LowerOptions : Type 0 where
  pub filename : Option String
  pub active_skip_levels : List ℤ
  pub tool_change_mode : Option ToolChangeMode
  pub enable_iso_m98_calls : Bool

pub record RejectedLine : Type 0 where
  pub source : SourceInfo
  pub reasons : List Diagnostic

abbrev pub no_pose : Pose6
no_pose = record { x = none; y = none; z = none; a = none; b = none; c = none }

abbrev pub no_arc : ArcParams
no_arc = record { i = none; j = none; k = none; r = none }

unfoldable pub is_error : Severity → Bool
is_error Severity.error = true
is_error Severity.warning = false

-- `diag.severity == Error && diag.location.line == line`
unfoldable pub is_error_of : ℕ → Diagnostic → Bool
unfolding is_error
is_error_of line diag = is_error diag.severity && diag.location.line == line

-- lineHasError
unfoldable pub line_has_error : List Diagnostic → ℕ → Bool
unfolding is_error_of
line_has_error [] line = false
line_has_error (diag ∷ diagnostics) line = is_error_of line diag || line_has_error diagnostics line

unfoldable pub contains_level : ℤ → List ℤ → Bool
contains_level level [] = false
contains_level level (l ∷ levels) = l == level || contains_level level levels

-- isSkipLevelActive
unfoldable pub is_skip_level_active : LowerOptions → ℤ → Bool
unfolding contains_level
is_skip_level_active options level = contains_level level options.active_skip_levels

-- `optional.value_or(d)`
abbrev pub value_or {ℓ} : {A : Type ℓ} → Option A → A → A
value_or none d = d
value_or (some a) d = a

-- shouldSkipLine
unfoldable pub should_skip_line : Line → LowerOptions → Bool
unfolding is_skip_level_active
should_skip_line line options =
    if line.block_delete
    then is_skip_level_active options (value_or line.block_delete_level (pos 0))
    else false

-- sourceFromLine
unfoldable pub source_from_line : Line → LowerOptions → SourceInfo
source_from_line line options = record {
  filename = options.filename;
  line = line.line_index;
  line_number = elim line.line_number [ none ↦ none | some n ↦ some n.value ];
}

-- A diagnostic put together field by field.
abbrev pub error_at : Location → String → Diagnostic
error_at location message = record {
  severity = Severity.error;
  message = message;
  location = location;
}

abbrev pub warning_at : Location → String → Diagnostic
warning_at location message = record {
  severity = Severity.warning;
  message = message;
  location = location;
}
