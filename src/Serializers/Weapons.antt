-- ===== src/Serializers/Weapons.antt =====
-- The same of the weapon serializers, and the authorization to fire.
use univac.Base.{ℕ, ◌≡◌, ◌≢◌, ◌↔◌, true, some, List, [], ◌∷◌, arith}
use univac.Text.{Text}
use univac.Text.Decimal.{decimal}
use univac.Floats.{Floating, FloatLaws}
use univac.Nmea.{frame, payload_of, is_field}
use univac.Nmea.Fields.{is_field-number, is_field-decimal}
use univac.Serializers.Packets.{Reads, frame-Reads}
use univac.Serializers.Weapon.{
  Allocation, WeaponSerializer, TargetBuffer, ShoreWeapon, ShoreSerializer, allocation_fields,
  serialize_jammer_suppression_commands, interlock_bit, shore_fields, serialize_shore_fire_commands,
}

-- One packet for each row, in order, with the fields that `g` gives for the row.
abbrev pub ReadsEach : {A : Type 0} → (A → List Text) → List Text → List A → Type 0
ReadsEach g [] [] = Unit
ReadsEach g (p ∷ ps) (a ∷ as_) = Reads p (g a) × ReadsEach g ps as_
ReadsEach g _ _ = ⊥

module _ {F : Type 0} ⦃fl : Floating F⦄ where
  numbered :
      (laws : FloatLaws fl) (x : Text) (n i j bit : ℕ) (a b : F)
      → is_field x ≡ true
      → let l = decimal n ∷ fl.fixed i a ∷ fl.fixed j b ∷ decimal bit ∷ [] in
        Reads (frame (payload_of (x ∷ l))) (x ∷ l)
  numbered laws x n i j bit a b h = frame-Reads x _ (
      ground (
        arith,
        is_field-decimal n,
        is_field-number (fl.fixed i a) (laws.fixed_chars i a),
        is_field-number (fl.fixed j b) (laws.fixed_chars j b),
        is_field-decimal bit,
      ))

  -- Each row of the allocation gives one packet, in order, which is accepted by the checksum
  -- test and read back as the mount's number, its angle and range, and the override bit, if
  -- the prefix holds no separator.
  pub serialize_jammer_suppression_commands-Reads :
      (laws : FloatLaws fl) (s : WeaponSerializer) (rows : List (Allocation F))
      → is_field s.prefix ≡ true
      → ReadsEach (allocation_fields s) (serialize_jammer_suppression_commands s rows) rows
  unfolding serialize_jammer_suppression_commands allocation_fields
  serialize_jammer_suppression_commands-Reads laws s [] h = tt
  serialize_jammer_suppression_commands-Reads laws s (a ∷ rows) h = (
    numbered laws s.prefix _ 2 1 _ _ _ h,
    serialize_jammer_suppression_commands-Reads laws s rows h,
  )

  -- Each shore weapon is sent one packet, in order, which is accepted by the checksum test
  -- and read back as its fields, if the prefix holds no separator.
  pub serialize_shore_fire_commands-Reads :
      (laws : FloatLaws fl) (s : ShoreSerializer) (target : TargetBuffer F)
      (weapons : List ShoreWeapon)
      → is_field s.prefix ≡ true
      → ReadsEach (shore_fields s target) (serialize_shore_fire_commands s target weapons) weapons
  unfolding serialize_shore_fire_commands shore_fields
  serialize_shore_fire_commands-Reads laws s target [] h = tt
  serialize_shore_fire_commands-Reads laws s target (w ∷ weapons) h = (
    numbered laws s.prefix _ 2 2 _ _ _ h,
    serialize_shore_fire_commands-Reads laws s target weapons h,
  )

  -- The fire bit is 1 exactly when the link is up, the target is locked and the Navy has cleared
  -- the release, and else 0; a key that is missing counts as not.
  pub interlock_bit_iff :
      (target : TargetBuffer F) (w : ShoreWeapon)
      → ((interlock_bit target w ≡ 1) ↔ (
          (w.umbilical_link_connected ≡ some true)
          × (target.is_target_locked ≡ some true)
          × (w.navy_combat_release_cleared ≡ some true)))
        × ((interlock_bit target w ≡ 0) ↔ (interlock_bit target w ≢ 1))
  unfolding interlock_bit
  interlock_bit_iff target w = ground arith
