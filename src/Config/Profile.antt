-- ===== src/Config/Profile.antt =====
-- config_manager.py. What stands on the disk is an argument; writing the default file is not
-- modelled. A dictionary is an association list with each key once.
use univac.Base.{
  Bool, true, false, not, ◌&&◌, Option, none, some, List, [], ◌∷◌, ◌>>=◌, if◌then◌else◌,
}
use univac.Text.{Text, codes, equal}
use univac.Floats.{Floating}

-- A value of the file, as far as `float()` tells values apart.
pub data ConfigValue (F : Type 0) : Type 0 where
  config_number : F → ConfigValue F
  -- an integer that is too large for a float: `float()` raises OverflowError
  config_huge : ConfigValue F
  config_bool : Bool → ConfigValue F
  config_string : Text → ConfigValue F
  -- null, a list or an object: `float()` raises TypeError
  config_other : ConfigValue F

-- What the file holds. The test `key not in raw_data` raises TypeError on a scalar, and the later
-- `raw_data['diameter']` on a list or a string.
pub data ConfigJson (F : Type 0) : Type 0 where
  config_object : List (Text × ConfigValue F) → ConfigJson F
  config_sequence config_scalar : ConfigJson F

pub data ConfigFile (F : Type 0) : Type 0 where
  -- the file does not exist; it cannot be read or is not JSON
  file_missing file_broken : ConfigFile F
  -- `json.load` raises what is not caught: UnicodeDecodeError of bytes that are no text, ValueError of
  -- an integer with too many digits, RecursionError
  file_raising : ConfigFile F
  file_json : ConfigJson F → ConfigFile F

pub data ConfigMessage : Type 0 where
  missing_token : Text → ConfigMessage
  diameter_bounds draft_bounds max_rudder_deg_bounds max_torque_bounds : ConfigMessage
  type_mismatch profile_passed : ConfigMessage
  -- no message: OverflowError leaves the method
  overflow_raised : ConfigMessage

-- `d[key]`, none where the key is missing.
unfoldable pub lookup : {A : Type 0} → Text → List (Text × A) → Option A
lookup key [] = none
lookup key ((k, v) ∷ l) = if equal k key then some v else lookup key l

abbrev pub is_some : {A : Type 0} → Option A → Bool
is_some none = false
is_some (some a) = true

abbrev pub is_passed : ConfigMessage → Bool
is_passed profile_passed = true
is_passed _ = false

abbrev pub is_raised : ConfigMessage → Bool
is_raised overflow_raised = true
is_raised _ = false

module _ {F : Type 0} ⦃fl : Floating F⦄ where
  unfoldable pub fallback_profile : List (Text × F)
  fallback_profile =
      (codes "diameter", fl.lit 34 1)
      ∷ (codes "inertia_prop", fl.lit 5000 1)
      ∷ (codes "inertia_roll", fl.lit 8500000 1)
      ∷ (codes "inertia_yaw", fl.lit 45000000 1)
      ∷ (codes "draft", fl.lit 65 1)
      ∷ (codes "rudder_arm_z", fl.lit 28 1)
      ∷ (codes "max_torque", fl.lit 900000 1)
      ∷ (codes "max_rudder_deg", fl.lit 350 1)
      ∷ (codes "hull_length", fl.lit 450 1)
      ∷ (codes "beam", fl.lit 95 1)
      ∷ []

  -- `float(v)`; none is ValueError, TypeError or OverflowError.
  unfoldable pub to_float : ConfigValue F → Option F
  to_float (config_number x) = some x
  to_float (config_bool true) = some (fl.lit 1 0)
  to_float (config_bool false) = some (fl.lit 0 0)
  to_float (config_string s) = fl.read s
  to_float config_other = none
  to_float config_huge = none

  unfoldable pub is_huge : Option (ConfigValue F) → Bool
  is_huge (some config_huge) = true
  is_huge _ = false

  -- The first key of the template that the file does not have.
  unfoldable pub first_missing : List (Text × F) → List (Text × ConfigValue F) → Option Text
  first_missing [] raw_data = none
  first_missing ((key, x) ∷ l) raw_data =
      let later = first_missing l raw_data in
      if is_some (lookup key raw_data) then later else some key

  abbrev pub within : F → F → F → Bool
  within lo hi x = fl.le lo x && fl.le x hi

  -- float(raw_data[key])
  unfoldable pub number_of : Text → List (Text × ConfigValue F) → Option F
  number_of key raw_data = lookup key raw_data >>= to_float

  -- One test of the `try`, and what follows it.
  unfoldable pub check_range :
      Text → F → F → ConfigMessage → List (Text × ConfigValue F) → ConfigMessage → ConfigMessage
  check_range key lo hi out_of_bounds raw_data next = elim (number_of key raw_data) [
    | none ↦ if is_huge (lookup key raw_data) then overflow_raised else type_mismatch
    | some x ↦ if not (within lo hi x) then out_of_bounds else next
  ]

  unfoldable pub check_ranges : List (Text × ConfigValue F) → ConfigMessage
  check_ranges raw_data =
      let torque =
        check_range (codes "max_torque") (fl.lit 1000 1) (fl.lit 5000000 1) max_torque_bounds
          raw_data profile_passed in
      let rudder =
        check_range (codes "max_rudder_deg") (fl.lit 50 1) (fl.lit 700 1) max_rudder_deg_bounds
          raw_data torque in
      let draft =
        check_range (codes "draft") (fl.lit 10 1) (fl.lit 250 1) draft_bounds raw_data rudder in
      check_range (codes "diameter") (fl.lit 5 1) (fl.lit 150 1) diameter_bounds raw_data draft

  -- `validate_profile_parameters` on a dictionary, by its message.
  unfoldable pub validate_profile_parameters : List (Text × ConfigValue F) → ConfigMessage
  validate_profile_parameters raw_data = elim (first_missing fallback_profile raw_data) [
    | none ↦ check_ranges raw_data
    | some key ↦ missing_token key
  ]

  -- {k: float(v) for k, v in loaded_json.items()}; an exception is none.
  unfoldable pub float_profile : List (Text × ConfigValue F) → Option (List (Text × F))
  float_profile [] = some []
  float_profile ((k, v) ∷ l) = to_float v >>= λ x. float_profile l >>= λ rest. some ((k, x) ∷ rest)

  -- `load_system_specifications`: the profile, none where an exception leaves the method.
  unfoldable pub load_system_specifications : ConfigFile F → Option (List (Text × F))
  load_system_specifications file_missing = some fallback_profile
  load_system_specifications file_broken = some fallback_profile
  load_system_specifications file_raising = none
  load_system_specifications (file_json config_scalar) = none
  load_system_specifications (file_json config_sequence) = some fallback_profile
  load_system_specifications (file_json (config_object loaded_json)) =
      if is_passed (validate_profile_parameters loaded_json)
      then float_profile loaded_json
      else if is_raised (validate_profile_parameters loaded_json)
      then none
      else some fallback_profile
