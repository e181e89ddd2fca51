-- ===== src/Plant/Suppression.antt =====
-- What a located jammer does to the mounts, and to the packets that turn them.
use univac.Base.{
  ◌≡◌, refl, inl, inr, true, not, List, [], ◌∷◌, map, map-compose, arith, Bool-cases, if◌then◌else◌,
  to_bit,
}
use univac.Text.{Text, equal}
use univac.Text.Decimal.{decimal}
use univac.Floats.{Floating, FloatLaws}
use univac.Floats.Math.{MathLib}
use univac.Nmea.{is_field}
use univac.Serializers.Weapon.{
  WeaponSerializer, mount_number, allocation_fields, serialize_jammer_suppression_commands,
}
use univac.Serializers.Weapons.{ReadsEach, serialize_jammer_suppression_commands-Reads}
use univac.Plant.Jammer.{
  JammerState, JammerSystem, PartnerTelemetry, Mount, jammer_system, intersection,
  compute_jammer_location, mount_command, allocate_idle_weapons, allocation_of, locate_all,
}

ReadsEach-map :
    {A B : Type 0} (g : B → List Text) (k : A → List Text) (h : A → B)
    (same : (a : A) → g (h a) ≡ k a) (ps : List Text) (l : List A)
    → ReadsEach g ps (map h l)
    → ReadsEach k ps l
ReadsEach-map g k h same [] [] r = tt
ReadsEach-map g k h same [] (a ∷ l) r = elim r [ ]
ReadsEach-map g k h same (p ∷ ps) [] r = elim r [ ]
ReadsEach-map g k h same (p ∷ ps) (a ∷ l) (r, rs) =
    (rw (← same a) r, ReadsEach-map g k h same ps l rs)

module _ {F : Type 0} ⦃fl : Floating F⦄ where
  -- A fix that counts lies within 150 km.
  abbrev pub InReach : JammerState F → Type 0
  InReach j = j.triangulation_valid ≡ true → fl.lt j.range_meters (fl.lit 1500000 1) ≡ true

  compute_jammer_location-InReach :
      (m : MathLib F) (own : F) (partner : PartnerTelemetry F) (s : JammerSystem F)
      → InReach (compute_jammer_location m own partner s).computed_jammer_state
  unfolding compute_jammer_location intersection
  compute_jammer_location-InReach m own partner s = ground arith

  locate_all-InReach :
      (m : MathLib F) (l : List (F × PartnerTelemetry F)) (s : JammerSystem F)
      → InReach s.computed_jammer_state
      → InReach (locate_all m l s).computed_jammer_state
  locate_all-InReach m [] s h = h
  locate_all-InReach m ((own, partner) ∷ l) s h =
      locate_all-InReach m l (compute_jammer_location m own partner s)
        (compute_jammer_location-InReach m own partner s)

  -- The fields that a mount's packet carries: an idle mount the jammer's bearing, range and bit 1,
  -- an engaged one its own azimuth, no range and bit 0.
  abbrev pub turned : WeaponSerializer → JammerState F → Mount F → List Text
  turned s j mount =
      s.prefix
      ∷ decimal (mount_number mount.id)
      ∷ fl.fixed 2
          (if mount.is_engaged then mount.current_azimuth else fl.round 2 j.bearing_true_deg)
      ∷ fl.fixed 1 (if mount.is_engaged then fl.lit 0 1 else fl.round 1 j.range_meters)
      ∷ decimal (to_bit (not mount.is_engaged))
      ∷ []

  turned-fields :
      (s : WeaponSerializer) (j : JammerState F) (mount : Mount F)
      → allocation_fields s (allocation_of (mount_command j mount)) ≡ turned s j mount
  unfolding allocation_fields mount_command equal
  turned-fields s j mount = elim (Bool-cases mount.is_engaged) [
    | inl busy ↦ simp busy
    | inr idle ↦ simp idle
  ]

  -- The mounts that are sent a packet: none without a fix that counts.
  abbrev pub addressed : JammerState F → List (Mount F) → List (Mount F)
  addressed j mounts = if j.triangulation_valid then mounts else []

  allocate-addressed :
      (s : JammerSystem F) (mounts : List (Mount F))
      → map allocation_of (allocate_idle_weapons s mounts)
        ≡ map
            (λ mount. allocation_of (mount_command s.computed_jammer_state mount))
            (addressed s.computed_jammer_state mounts)
  unfolding allocate_idle_weapons mount_command
  allocate-addressed s mounts = elim (Bool-cases s.computed_jammer_state.triangulation_valid) [
    | inl good ↦ rw good (map-compose allocation_of (mount_command s.computed_jammer_state) mounts)
    | inr bad ↦ rw bad refl
  ]

  jammer_system-InReach : (x y : F) → InReach (jammer_system x y).computed_jammer_state
  unfolding jammer_system
  jammer_system-InReach x y h = ground arith

  -- After any fixes with consorts: a fix counts only within 150 km; without one no mount is sent
  -- anything; with one each mount is sent one packet, in order, that passes the checksum test: an
  -- idle mount the jammer's bearing and range with the override bit, an engaged mount its own
  -- azimuth without it. The serializer's prefix holds no separator.
  pub allocate_idle_weapons-Reads :
      (laws : FloatLaws fl) (m : MathLib F) (x y : F) (l : List (F × PartnerTelemetry F))
      (s : WeaponSerializer) (mounts : List (Mount F))
      → is_field s.prefix ≡ true
      → let system = locate_all m l (jammer_system x y) in
        let j = system.computed_jammer_state in
        InReach j
        × ReadsEach
            (turned s j)
            (serialize_jammer_suppression_commands s
              (map allocation_of (allocate_idle_weapons system mounts)))
            (addressed j mounts)
  allocate_idle_weapons-Reads laws m x y l s mounts h =
      let system = locate_all m l (jammer_system x y) in
      let j = system.computed_jammer_state in
      let rows = map (λ mount. allocation_of (mount_command j mount)) (addressed j mounts) in
      (
        locate_all-InReach m l (jammer_system x y) (jammer_system-InReach x y),
        rw (allocate-addressed system mounts) (
            ReadsEach-map (allocation_fields s) (turned s j)
              (λ mount. allocation_of (mount_command j mount)) (turned-fields s j)
              (serialize_jammer_suppression_commands s rows) (addressed j mounts)
              (serialize_jammer_suppression_commands-Reads laws s rows h)),
      )
