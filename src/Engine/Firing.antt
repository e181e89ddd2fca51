-- ===== src/Engine/Firing.antt =====
-- The roll stabilizer's firing gate, and the packets of its two channels.
use univac.Base.{ℕ, ◌≡◌, ◌↔◌, Bool, true, false, Option, some, arith, or_default}
use univac.Floats.{Floating, FloatLaws}
use univac.Floats.Math.{MathLib, MathLaws}
use univac.Nmea.{is_field}
use univac.Serializers.Actuator.{
  AsymmetricSerializer, TrackingMode, apex_combat_lock_active, channel_fields,
  serialize_asymmetric_actuator_channels,
}
use univac.Serializers.Packets.{Reads, serialize_asymmetric_actuator_channels-Reads}
use univac.Engine.Stabilizer.{
  Stabilizer, RollTelemetry, DeckWeaponState, StabilizerReport, RollControl, roll_of,
  target_deck_roll, roll_control, calculate_fire_synchronized_stabilization, channels_of,
}
use univac.Engine.Limits.{Between, clamp_symmetric, rounded}

module _ {F : Type 0} ⦃fl : Floating F⦄ where
  abbrev pub is_engaged : DeckWeaponState F → Bool
  is_engaged w = or_default w.engagement_sequence_active false

  abbrev pub stabilize :
      MathLib F → Option F → RollTelemetry F → DeckWeaponState F → Stabilizer F → StabilizerReport F
  stabilize m yaw t w s = (calculate_fire_synchronized_stabilization m yaw t w s).0

  roll_control-gate :
      (t : RollTelemetry F) (w : DeckWeaponState F) (x : F)
      → let c : RollControl F = roll_control t w x in
        ((c.ready_to_fire ≡ true) ↔ (
          (is_engaged w ≡ true)
          × (fl.le (fl.abs (or_default t.roll_rate_rads (fl.lit 0 1))) (fl.lit 3 2) ≡ true)
          × (fl.lt (fl.abs (fl.sub (roll_of t) (target_deck_roll w))) (fl.lit 2 2) ≡ true)))
        × ((c.mode ≡ apex_combat_lock_active) ↔ (is_engaged w ≡ true))
  unfolding roll_control
  roll_control-gate t w x = ground arith

  -- The firing interlock is cleared exactly while a target is engaged, the roll rate is at most
  -- 0.03 rad/s and the deck is within 0.02 rad of the ordered roll; the mode is the combat lock
  -- exactly while a target is engaged.
  pub calculate_fire_synchronized_stabilization_iff :
      (m : MathLib F) (yaw : Option F) (t : RollTelemetry F) (w : DeckWeaponState F)
      (s : Stabilizer F)
      → let r = stabilize m yaw t w s in
        ((r.firing_interlock_cleared ≡ true) ↔ (
          (is_engaged w ≡ true)
          × (fl.le (fl.abs (or_default t.roll_rate_rads (fl.lit 0 1))) (fl.lit 3 2) ≡ true)
          × (fl.lt (fl.abs (fl.sub (roll_of t) (target_deck_roll w))) (fl.lit 2 2) ≡ true)))
        × ((r.tracking_mode ≡ apex_combat_lock_active) ↔ (is_engaged w ≡ true))
  unfolding calculate_fire_synchronized_stabilization
  calculate_fire_synchronized_stabilization_iff m yaw t w s = roll_control-gate t w _

  module _ (laws : FloatLaws fl) (m : MathLib F) (mlaws : MathLaws fl m) where
    stabilize-Between :
        (yaw : Option F) (t : RollTelemetry F) (w : DeckWeaponState F) (s : Stabilizer F)
        → fl.le (fl.lit 0 1) s.max_actuator ≡ true
        → let r = stabilize m yaw t w s in
          let limit = fl.round 2 s.max_actuator in
          let low = fl.round 2 (fl.neg s.max_actuator) in
          Between laws m mlaws low limit r.port_actuator_deg
          × Between laws m mlaws low limit r.stbd_actuator_deg
    unfolding calculate_fire_synchronized_stabilization
    stabilize-Between yaw t w s h = (
      rounded laws m mlaws 2 s.max_actuator _ (clamp_symmetric laws m mlaws s.max_actuator _ h),
      rounded laws m mlaws 2 s.max_actuator _ (clamp_symmetric laws m mlaws s.max_actuator _ h),
    )

    mode_some :
        (a : TrackingMode) → (some a ≡ some apex_combat_lock_active) ↔ (a ≡ apex_combat_lock_active)
    mode_some a = ground arith

    -- With a stop that is not negative and headers without separators: the two packets of a cycle
    -- pass the checksum test and are read as the port and the starboard angle, both between the
    -- rounded stops, the slew cap, and a lock bit that is 1 exactly while a target is engaged.
    pub stabilizer_packets-Reads :
        (yaw : Option F) (t : RollTelemetry F) (w : DeckWeaponState F) (s : Stabilizer F)
        (x : AsymmetricSerializer) (cap : F)
        → fl.le (fl.lit 0 1) s.max_actuator ≡ true
        → is_field x.port_header ≡ true
        → is_field x.stbd_header ≡ true
        → let r = stabilize m yaw t w s in
          let (port, stbd) = serialize_asymmetric_actuator_channels x (channels_of r) cap in
          let limit = fl.round 2 s.max_actuator in
          let low = fl.round 2 (fl.neg s.max_actuator) in
          (bit : ℕ) × Reads port (channel_fields x.port_header r.port_actuator_deg cap bit)
          × Reads stbd (channel_fields x.stbd_header r.stbd_actuator_deg cap bit)
          × Between laws m mlaws low limit r.port_actuator_deg
          × Between laws m mlaws low limit r.stbd_actuator_deg
          × ((bit ≡ 1) ↔ (is_engaged w ≡ true))
    stabilizer_packets-Reads yaw t w s x cap h hp hs =
        let r = stabilize m yaw t w s in
        let (bit, port, stbd, lock) =
          serialize_asymmetric_actuator_channels-Reads laws x (channels_of r) cap hp hs in
        let (b0, b1) = stabilize-Between yaw t w s h in
        let gate = (calculate_fire_synchronized_stabilization_iff m yaw t w s).1 in
        (bit, port, stbd, b0, b1, ground (arith, lock, gate, mode_some r.tracking_mode))
