-- ===== src/Config/Loading.antt =====
-- What the loader gives the program, whatever stands on the disk.
use univac.Base.{
  ◌||◌, ◌≤◌, ℕ, ◌≡◌, refl, ◌∙◌, Bool, true, false, ◌&&◌, none, some, List, [], ◌∷◌, all, arith, inl,
  inr, Bool-cases, Option-cases,
}
use univac.Text.{Text, codes, equal}
use univac.Floats.{Floating, FloatLaws}
use univac.Config.Profile.{
  ConfigValue, config_object, config_sequence, config_scalar, ConfigFile, file_missing, file_broken,
  file_raising, file_json, ConfigMessage, lookup, is_some, fallback_profile, to_float,
  first_missing, within, number_of, check_range, check_ranges, validate_profile_parameters,
  is_passed, is_raised, is_huge, float_profile, load_system_specifications,
}

module _ {F : Type 0} ⦃fl : Floating F⦄ where
  -- The profile has a number for the key, within the bounds.
  abbrev pub HasWithin : Text → F → F → List (Text × F) → Type 0
  HasWithin key lo hi p = (x : F) × (lookup key p ≡ some x) × (within lo hi x ≡ true)

  abbrev pub has_key : List (Text × F) → (Text × F) → Bool
  has_key p (key, x) = is_some (lookup key p)

  -- Every key of the template, and the four bounded parameters in their bounds.
  abbrev pub IsSound : List (Text × F) → Type 0
  IsSound p =
      HasWithin (codes "diameter") (fl.lit 5 1) (fl.lit 150 1) p
      × HasWithin (codes "draft") (fl.lit 10 1) (fl.lit 250 1) p
      × HasWithin (codes "max_rudder_deg") (fl.lit 50 1) (fl.lit 700 1) p
      × HasWithin (codes "max_torque") (fl.lit 1000 1) (fl.lit 5000000 1) p
      × (all (has_key p) fallback_profile ≡ true)

  both :
      (laws : FloatLaws fl) (a x b : ℕ)
      → a ≤ x
      → x ≤ b
      → within (fl.lit a 1) (fl.lit b 1) (fl.lit x 1) ≡ true
  both laws a x b h k = ground (arith, laws.lit_mono a x 1 h, laws.lit_mono x b 1 k)

  fallback_profile-IsSound : (laws : FloatLaws fl) → IsSound fallback_profile
  unfolding fallback_profile lookup equal
  fallback_profile-IsSound laws = (
    (fl.lit 34 1, refl, both laws 5 34 150 (omega arith) (omega arith)),
    (fl.lit 65 1, refl, both laws 10 65 250 (omega arith) (omega arith)),
    (fl.lit 350 1, refl, both laws 50 350 700 (omega arith) (omega arith)),
    (fl.lit 900000 1, refl, both laws 1000 900000 5000000 (omega arith) (omega arith)),
    refl,
  )

  lookup-float_profile :
      (key : Text) (raw : List (Text × ConfigValue F)) (p : List (Text × F))
      → float_profile raw ≡ some p
      → lookup key p ≡ number_of key raw
  unfolding float_profile lookup number_of
  lookup-float_profile key [] p h = ground arith
  lookup-float_profile key ((k, v) ∷ l) p h = elim (Option-cases (to_float v)) [
    | inl gone ↦ ground arith
    | inr (x, found) ↦ elim (Option-cases (float_profile l)) [
      | inl none_left ↦ ground arith
      | inr (rest, tail) ↦ ground (arith, lookup-float_profile key l rest tail)
    ]
  ]

  check_range-passed :
      (key : Text) (lo hi : F) (msg : ConfigMessage) (raw : List (Text × ConfigValue F))
      (next : ConfigMessage)
      → is_passed msg ≡ false
      → is_passed (check_range key lo hi msg raw next) ≡ true
      → ((x : F) × (number_of key raw ≡ some x) × (within lo hi x ≡ true)) × (is_passed next ≡ true)
  unfolding check_range
  check_range-passed key lo hi msg raw next hm h = elim (Option-cases (number_of key raw)) [
    | inl gone ↦ ground arith
    | inr (x, found) ↦ elim (Bool-cases (within lo hi x)) [
      | inl inside ↦ ((x, found, inside), ground arith)
      | inr outside ↦ ground arith
    ]
  ]

  -- What the passing message says of the file.
  abbrev pub NumberWithin : Text → F → F → List (Text × ConfigValue F) → Type 0
  NumberWithin key lo hi raw = (x : F) × (number_of key raw ≡ some x) × (within lo hi x ≡ true)

  check_ranges-passed :
      (raw : List (Text × ConfigValue F))
      → is_passed (check_ranges raw) ≡ true
      → NumberWithin (codes "diameter") (fl.lit 5 1) (fl.lit 150 1) raw
        × NumberWithin (codes "draft") (fl.lit 10 1) (fl.lit 250 1) raw
        × NumberWithin (codes "max_rudder_deg") (fl.lit 50 1) (fl.lit 700 1) raw
        × NumberWithin (codes "max_torque") (fl.lit 1000 1) (fl.lit 5000000 1) raw
  unfolding check_ranges
  check_ranges-passed raw h =
      let (diameter, h1) = check_range-passed _ _ _ _ raw _ refl h in
      let (draft, h2) = check_range-passed _ _ _ _ raw _ refl h1 in
      let (rudder, h3) = check_range-passed _ _ _ _ raw _ refl h2 in
      let (torque, h4) = check_range-passed _ _ _ _ raw _ refl h3 in
      (diameter, draft, rudder, torque)

  lookup-present :
      (key : Text) (raw : List (Text × ConfigValue F)) (p : List (Text × F))
      → float_profile raw ≡ some p
      → is_some (lookup key p) ≡ is_some (lookup key raw)
  unfolding float_profile lookup
  lookup-present key [] p h = ground arith
  lookup-present key ((k, v) ∷ l) p h = elim (Option-cases (to_float v)) [
    | inl gone ↦ ground arith
    | inr (x, found) ↦ elim (Option-cases (float_profile l)) [
      | inl none_left ↦ ground arith
      | inr (rest, tail) ↦ ground (arith, lookup-present key l rest tail)
    ]
  ]

  first_missing-none :
      (template : List (Text × F)) (raw : List (Text × ConfigValue F)) (p : List (Text × F))
      → first_missing template raw ≡ none
      → float_profile raw ≡ some p
      → all (has_key p) template ≡ true
  unfolding first_missing
  first_missing-none [] raw p h k = refl
  first_missing-none ((key, x) ∷ template) raw p h k =
      ground (arith, lookup-present key raw p k, first_missing-none template raw p)

  NumberWithin-HasWithin :
      (key : Text) (lo hi : F) (raw : List (Text × ConfigValue F)) (p : List (Text × F))
      → float_profile raw ≡ some p
      → NumberWithin key lo hi raw
      → HasWithin key lo hi p
  NumberWithin-HasWithin key lo hi raw p h (x, found, inside) =
      (x, lookup-float_profile key raw p h ∙ found, inside)

  validate-passed :
      (raw : List (Text × ConfigValue F))
      → is_passed (validate_profile_parameters raw) ≡ true
      → (first_missing fallback_profile raw ≡ none) × (is_passed (check_ranges raw) ≡ true)
  unfolding validate_profile_parameters
  validate-passed raw h = elim (Option-cases (first_missing fallback_profile raw)) [
    | inl complete ↦ (complete, ground arith)
    | inr (key, gone) ↦ ground arith
  ]

  float_profile-IsSound :
      (raw : List (Text × ConfigValue F)) (p : List (Text × F))
      → is_passed (validate_profile_parameters raw) ≡ true
      → float_profile raw ≡ some p
      → IsSound p
  float_profile-IsSound raw p h k =
      let (complete, ranges) = validate-passed raw h in
      let (diameter, draft, rudder, torque) = check_ranges-passed raw ranges in
      (
        NumberWithin-HasWithin _ _ _ raw p k diameter,
        NumberWithin-HasWithin _ _ _ raw p k draft,
        NumberWithin-HasWithin _ _ _ raw p k rudder,
        NumberWithin-HasWithin _ _ _ raw p k torque,
        first_missing-none fallback_profile raw p complete k,
      )

  same_profile : (a p : List (Text × F)) → some a ≡ some p → IsSound a → IsSound p
  same_profile a p e h = let same : a ≡ p = ground arith in rw (← same) h

  -- Whatever stands on the disk, a profile that the loader answers has all ten keys of the
  -- template, and its diameter, draft, rudder stop and torque lie within the bounds of the
  -- validation.
  pub load_system_specifications-IsSound :
      (laws : FloatLaws fl) (file : ConfigFile F) (p : List (Text × F))
      → load_system_specifications file ≡ some p
      → IsSound p
  unfolding load_system_specifications
  load_system_specifications-IsSound laws file_missing p h =
      same_profile fallback_profile p h (fallback_profile-IsSound laws)
  load_system_specifications-IsSound laws file_broken p h =
      same_profile fallback_profile p h (fallback_profile-IsSound laws)
  load_system_specifications-IsSound laws file_raising p h = ground arith
  load_system_specifications-IsSound laws (file_json config_scalar) p h = ground arith
  load_system_specifications-IsSound laws (file_json config_sequence) p h =
      same_profile fallback_profile p h (fallback_profile-IsSound laws)
  load_system_specifications-IsSound laws (file_json (config_object raw)) p h =
      elim (Bool-cases (is_passed (validate_profile_parameters raw))) [
        | inl passed ↦ float_profile-IsSound raw p passed (ground arith)
        | inr failed ↦ elim (Bool-cases (is_raised (validate_profile_parameters raw))) [
          | inl raised ↦ ground arith
          | inr told ↦
              same_profile fallback_profile p (ground arith) (fallback_profile-IsSound laws)
        ]
      ]

  -- A value that `float()` refuses.
  abbrev pub all_numeric : List (Text × ConfigValue F) → Bool
  all_numeric [] = true
  all_numeric ((k, v) ∷ l) = is_some (to_float v) && all_numeric l

  -- One of the four tested parameters is an integer that is too large for a float.
  abbrev pub tests_huge : List (Text × ConfigValue F) → Bool
  tests_huge raw =
      is_huge (lookup (codes "diameter") raw)
      || is_huge (lookup (codes "draft") raw)
      || is_huge (lookup (codes "max_rudder_deg") raw)
      || is_huge (lookup (codes "max_torque") raw)
