-- ===== src/Watchdog/Registers.antt =====
-- Laws of the registers of the supervisors.
use univac.Base.{
  ◌≡◌, refl, ◌∙◌, Bool, false, ◌&&◌, Option, none, some, [], ◌∷◌, arith, if◌then◌else◌, Bool-cases,
  inl, inr,
}
use univac.Text.{Text, equal, member}
use univac.Text.Laws.{equal_iff, equal_comm}
use univac.Watchdog.{Register, has_key, set_present, set_all, names_where}

module _ {A : Type 0} where
  -- The value of the first entry of the name.
  abbrev pub value_of : Text → Register A → Option A
  value_of name [] = none
  value_of name ((k, v) ∷ d) = if equal k name then some v else value_of name d

  -- Every name stands once.
  abbrev pub Distinct : Register A → Type 0
  Distinct [] = Unit
  Distinct ((k, v) ∷ d) = (has_key k d ≡ false) × Distinct d

  pub has_key-set_present :
      (name other : Text) (v : A) (d : Register A)
      → has_key other (set_present name v d) ≡ has_key other d
  unfolding has_key set_present
  has_key-set_present name other v [] = refl
  has_key-set_present name other v ((k, w) ∷ d) = ground (arith, has_key-set_present name other v d)

  pub has_key-set_all :
      (other : Text) (v : A) (d : Register A) → has_key other (set_all v d) ≡ has_key other d
  unfolding has_key set_all
  has_key-set_all other v [] = refl
  has_key-set_all other v ((k, w) ∷ d) = ground (arith, has_key-set_all other v d)

  pub Distinct-set_present :
      (name : Text) (v : A) (d : Register A) → Distinct d → Distinct (set_present name v d)
  unfolding set_present
  Distinct-set_present name v [] h = tt
  Distinct-set_present name v ((k, w) ∷ d) h = elim (Bool-cases (equal k name)) [
    | inl e ↦ rw e (has_key-set_present name k v d ∙ h.0, Distinct-set_present name v d h.1)
    | inr e ↦ rw e (has_key-set_present name k v d ∙ h.0, Distinct-set_present name v d h.1)
  ]

  pub Distinct-set_all : (v : A) (d : Register A) → Distinct d → Distinct (set_all v d)
  unfolding set_all
  Distinct-set_all v [] h = tt
  Distinct-set_all v ((k, w) ∷ d) h = (has_key-set_all k v d ∙ h.0, Distinct-set_all v d h.1)

  absent_name :
      (p : A → Bool) (name : Text) (d : Register A)
      → has_key name d ≡ false
      → member name (names_where p d) ≡ false
  unfolding has_key names_where member
  absent_name p name [] h = refl
  absent_name p name ((k, v) ∷ d) h = ground (arith, equal_comm k name, absent_name p name d)

  abbrev pub selected : (A → Bool) → Option A → Bool
  selected p none = false
  selected p (some v) = p v

  -- A name is among those that the test selects exactly when its entry satisfies the test.
  pub member-names_where :
      (p : A → Bool) (name : Text) (d : Register A)
      → Distinct d
      → member name (names_where p d) ≡ selected p (value_of name d)
  unfolding names_where member
  member-names_where p name [] h = refl
  member-names_where p name ((k, v) ∷ d) h = elim (Bool-cases (equal k name)) [
    | inl e ↦
        let absent = absent_name p k d h.0 in
        ground (arith, equal_comm k name, (equal_iff k name).0 e, absent)
    | inr e ↦ ground (arith, equal_comm k name, member-names_where p name d h.1)
  ]

  pub value_of-set_present :
      (name other : Text) (v : A) (d : Register A)
      → value_of other (set_present name v d)
        ≡ (if equal name other && has_key other d then some v else value_of other d)
  unfolding set_present has_key
  value_of-set_present name other v [] = ground arith
  value_of-set_present name other v ((k, w) ∷ d) = elim (Bool-cases (equal k name)) [
    | inl e ↦
        let same = (equal_iff k name).0 e in ground (arith, value_of-set_present name other v d)
    | inr e ↦ elim (Bool-cases (equal k other)) [
      | inl o ↦
          let differs : equal name other ≡ false =
            ground (arith, (equal_iff k other).0 o, equal_comm k name) in
          ground arith
      | inr o ↦ ground (arith, value_of-set_present name other v d)
    ]
  ]

  pub value_of-set_all :
      (other : Text) (v : A) (d : Register A)
      → value_of other (set_all v d) ≡ (if has_key other d then some v else none)
  unfolding set_all has_key
  value_of-set_all other v [] = refl
  value_of-set_all other v ((k, w) ∷ d) = ground (arith, value_of-set_all other v d)
