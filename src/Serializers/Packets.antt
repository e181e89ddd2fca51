-- ===== src/Serializers/Packets.antt =====
-- Every packet of the actuator serializers passes the receivers' checksum test and is split back
-- into the fields that were printed.
use univac.Base.{
  ℕ, zero, suc, ◌≡◌, ◌↔◌, some, refl, Bool, true, false, List, [], ◌∷◌, ◌++◌, arith, take,
  or_default, if◌then◌else◌,
}
use univac.Text.{Text, codes, strip, upper, upper_char, contains}
use univac.Floats.{Floating, FloatLaws}
use univac.Nmea.{frame, fields, validate_checksum, payload_of, is_field}
use univac.Nmea.Fields.{
  AllFields, validate_checksum-payload, fields-payload, is_field-number, is_field-append,
  is_field-decimal,
}
use univac.Serializers.Actuator.{
  apex_combat_lock_active, combat_lock_bit, EngineOutput, ActuatorSerializer, StabilizerOutput,
  AsymmetricSerializer, rudder_fields, serialize_rudder_command, propulsion_fields,
  serialize_propulsion_command, actuator_fields, serialize_to_actuator_sentence, channel_fields,
  serialize_asymmetric_actuator_channels,
}

-- A receiver accepts the packet, and reads these fields behind the dollar sign.
abbrev pub Reads : Text → List Text → Type 0
Reads packet [] = ⊥
Reads packet (x ∷ l) =
    (validate_checksum (strip packet) ≡ true) × (fields (strip packet) ≡ (b'$' ∷ x) ∷ l)

pub frame-Reads :
    (x : Text) (l : List Text) → AllFields (x ∷ l) → Reads (frame (payload_of (x ∷ l))) (x ∷ l)
frame-Reads x l h = (validate_checksum-payload (x ∷ l) h, fields-payload x l h)

pub is_field-upper : (s : Text) → is_field s ≡ true → is_field (upper s) ≡ true
unfolding is_field upper upper_char contains
is_field-upper [] h = refl
is_field-upper (c ∷ s) h = ground (arith, is_field-upper s)

pub is_field-take : (n : ℕ) (s : Text) → is_field s ≡ true → is_field (take n s) ≡ true
unfolding is_field contains
is_field-take zero s h = refl
is_field-take (suc n) [] h = refl
is_field-take (suc n) (c ∷ s) h = ground (arith, is_field-take n s)

letters :
    (is_field (codes "P") ≡ true)
    × (is_field (codes "R") ≡ true)
    × (is_field (codes "L") ≡ true)
    × (is_field (codes "PVCMD") ≡ true)
unfolding is_field contains
letters = (refl, refl, refl, refl)

header_field :
    (code message_type : Text)
    → is_field code ≡ true
    → is_field message_type ≡ true
    → is_field (codes "P" ++ (code ++ upper message_type)) ≡ true
header_field code message_type h k =
    is_field-append (codes "P") (code ++ upper message_type) letters.0
      (is_field-append code (upper message_type) h (is_field-upper message_type k))

direction_field : (b : Bool) → is_field (if b then codes "R" else codes "L") ≡ true
direction_field true = letters.1
direction_field false = letters.2

module _ {F : Type 0} ⦃fl : Floating F⦄ where
  is_field-fixed : FloatLaws fl → (k : ℕ) (x : F) → is_field (fl.fixed k x) ≡ true
  is_field-fixed laws k x = is_field-number (fl.fixed k x) (laws.fixed_chars k x)

  -- A rudder packet is accepted by the checksum test and read back as its header, the angle's
  -- magnitude, the side and the slew limit, if the code and the type hold no separator.
  pub serialize_rudder_command-Reads :
      (laws : FloatLaws fl) (s : ActuatorSerializer) (out : EngineOutput F) (message_type : Text)
      → is_field s.code ≡ true
      → is_field message_type ≡ true
      → Reads (serialize_rudder_command s out message_type) (rudder_fields s out message_type)
  unfolding serialize_rudder_command rudder_fields
  serialize_rudder_command-Reads laws s out message_type h k =
      let angle = or_default out.command_rudder_angle_deg (fl.lit 0 1) in
      frame-Reads (codes "P" ++ (s.code ++ upper message_type)) _ (
        ground (
          arith,
          header_field s.code message_type h k,
          is_field-fixed laws 2 (fl.abs angle),
          direction_field (fl.le (fl.lit 0 0) angle),
          is_field-fixed laws 1 (fl.lit 150 1),
        ))

  three_numbers :
      (laws : FloatLaws fl) (x : Text) (i j k : ℕ) (a b c : F)
      → is_field x ≡ true
      → AllFields (x ∷ fl.fixed i a ∷ fl.fixed j b ∷ fl.fixed k c ∷ [])
  three_numbers laws x i j k a b c h =
      ground (arith, is_field-fixed laws i a, is_field-fixed laws j b, is_field-fixed laws k c)

  -- The same of a propulsion packet and its torque, revolutions cap and fatigue.
  pub serialize_propulsion_command-Reads :
      (laws : FloatLaws fl) (s : ActuatorSerializer) (out : EngineOutput F) (message_type : Text)
      → is_field s.code ≡ true
      → is_field message_type ≡ true
      → Reads
          (serialize_propulsion_command s out message_type)
          (propulsion_fields s out message_type)
  unfolding serialize_propulsion_command propulsion_fields
  serialize_propulsion_command-Reads laws s out message_type h k =
      frame-Reads _ _ (three_numbers laws _ 1 1 1 _ _ _ (header_field s.code message_type h k))

  four_numbers :
      (laws : FloatLaws fl) (x : Text) (i j k m : ℕ) (a b c d : F)
      → is_field x ≡ true
      → AllFields (x ∷ fl.fixed i a ∷ fl.fixed j b ∷ fl.fixed k c ∷ fl.fixed m d ∷ [])
  four_numbers laws x i j k m a b c d h =
      ground (arith, three_numbers laws x i j k a b c h, is_field-fixed laws m d)

  -- Whatever the engine computed, the sentence to the actuator network is accepted and read back.
  pub serialize_to_actuator_sentence-Reads :
      (laws : FloatLaws fl) (out : EngineOutput F)
      → Reads (serialize_to_actuator_sentence out) (actuator_fields out)
  unfolding serialize_to_actuator_sentence actuator_fields
  serialize_to_actuator_sentence-Reads laws out =
      frame-Reads _ _ (four_numbers laws _ 1 2 1 1 _ _ _ _ letters.3)

  channel-Reads :
      (laws : FloatLaws fl) (header : Text) (angle cap : F) (bit : ℕ)
      → is_field header ≡ true
      → Reads
          (frame (payload_of (channel_fields header angle cap bit)))
          (channel_fields header angle cap bit)
  unfolding channel_fields
  channel-Reads laws header angle cap bit h =
      frame-Reads header _ (
        ground
          (arith, is_field-fixed laws 2 angle, is_field-fixed laws 1 cap, is_field-decimal bit))

  -- Both channels are accepted and read back, if the two headers hold no separator, each
  -- with its own angle and both with the same slew limit and combat lock bit, which is 1
  -- exactly in apex combat lock.
  pub serialize_asymmetric_actuator_channels-Reads :
      (laws : FloatLaws fl) (s : AsymmetricSerializer) (out : StabilizerOutput F) (cap : F)
      → is_field s.port_header ≡ true
      → is_field s.stbd_header ≡ true
      → (bit : ℕ) × Reads (serialize_asymmetric_actuator_channels s out cap).0 (
          channel_fields s.port_header
            (or_default out.command_port_actuator_deg (fl.lit 0 1))
            cap
            bit)
        × Reads (serialize_asymmetric_actuator_channels s out cap).1 (
            channel_fields s.stbd_header
              (or_default out.command_stbd_actuator_deg (fl.lit 0 1))
              cap
              bit)
        × ((bit ≡ 1) ↔ (out.stabilization_state ≡ some apex_combat_lock_active))
  unfolding serialize_asymmetric_actuator_channels combat_lock_bit channel_fields
  serialize_asymmetric_actuator_channels-Reads laws s out cap h k = (
    combat_lock_bit out,
    channel-Reads laws s.port_header _ cap _ h,
    channel-Reads laws s.stbd_header _ cap _ k,
    ground arith,
  )
