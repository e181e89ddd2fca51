-- ===== src/Engine/Stabilizer.antt =====
-- control_core/asymmetric_roll_stabilizer.py. The parameters that no formula reads are left out.
use univac.Base.{
  ℕ, Bool, false, ◌&&◌, Option, some, List, [], ◌∷◌, ◌++◌, length, ltb, or_default, if◌then◌else◌,
}
use univac.Floats.{Floating, max_of, clamp}
use univac.Floats.Math.{MathLib}
use univac.Serializers.Actuator.{
  TrackingMode, apex_combat_lock_active, nominal_storm_damping, StabilizerOutput,
}

pub record Stabilizer (F : Type 0) : Type 0 where
  pub max_actuator : F
  pub roll_history : List F

pub record RollTelemetry (F : Type 0) : Type 0 where
  pub speed_ms : Option F
  pub yaw_rate_rads : Option F
  pub roll_angle_rad : Option F
  pub roll_rate_rads : Option F

-- The keys of the weapon state that are read.
pub record DeckWeaponState (F : Type 0) : Type 0 where
  pub engagement_sequence_active : Option Bool
  pub target_elevation_deg : Option F

pub record StabilizerReport (F : Type 0) : Type 0 where
  pub port_actuator_deg : F
  pub stbd_actuator_deg : F
  pub firing_interlock_cleared : Bool
  pub tracking_mode : TrackingMode
  pub asymmetric_split_delta_deg : F
  pub vessel_storm_list_deg : F

-- What depends on whether a target is engaged.
pub record RollControl (F : Type 0) : Type 0 where
  pub u_roll_control : F
  pub mode : TrackingMode
  pub ready_to_fire : Bool

unfoldable pub window_size : ℕ
window_size = 50

abbrev pub pop_first : {A : Type 0} → List A → List A
pop_first [] = []
pop_first (x ∷ l) = l

-- `append`, and `pop(0)` where the window is full.
unfoldable pub push_roll : {F : Type 0} → F → List F → List F
push_roll x history =
    let longer = history ++ (x ∷ []) in
    if ltb window_size (length longer) then pop_first longer else longer

module _ {F : Type 0} ⦃fl : Floating F⦄ where
  unfoldable pub new_stabilizer : F → Stabilizer F
  new_stabilizer max_rudder_deg = record { max_actuator = max_rudder_deg; roll_history = [] }

  abbrev pub roll_of : RollTelemetry F → F
  roll_of t = or_default t.roll_angle_rad (fl.lit 0 1)

  -- math.radians(max(-8.0, min(8.0, target_elevation_deg * 0.2)))
  unfoldable pub target_deck_roll : DeckWeaponState F → F
  target_deck_roll w = fl.radians (
      clamp (fl.neg (fl.lit 80 1)) (fl.lit 80 1)
        (fl.mul (or_default w.target_elevation_deg (fl.lit 0 1)) (fl.lit 2 1)))

  unfoldable pub roll_control : RollTelemetry F → DeckWeaponState F → F → RollControl F
  roll_control t w persistent_list_rad =
      let error = fl.sub (roll_of t) (target_deck_roll w) in
      if or_default w.engagement_sequence_active false
      then record {
        u_roll_control = fl.mul (fl.lit 45 1) error;
        mode = apex_combat_lock_active;
        ready_to_fire =
            fl.le (fl.abs (or_default t.roll_rate_rads (fl.lit 0 1))) (fl.lit 3 2)
            && fl.lt (fl.abs error) (fl.lit 2 2);
      }
      else record {
        u_roll_control = fl.mul (fl.lit 38 1) persistent_list_rad;
        mode = nominal_storm_damping;
        ready_to_fire = false;
      }

  -- sum(self.roll_history) / len(self.roll_history)
  unfoldable pub persistent_list : MathLib F → List F → F
  persistent_list m history = fl.div (m.total history) (fl.lit (length history) 0)

  -- `calculate_fire_synchronized_stabilization`: the report, and the new state.
  unfoldable pub calculate_fire_synchronized_stabilization :
      MathLib F
      → Option F
      → RollTelemetry F
      → DeckWeaponState F
      → Stabilizer F
      → StabilizerReport F × Stabilizer F
  calculate_fire_synchronized_stabilization m target_yaw_rate t w s =
      let current_speed = max_of (fl.lit 1 1) (or_default t.speed_ms (fl.lit 0 1)) in
      let current_yaw_rate = or_default t.yaw_rate_rads (fl.lit 0 1) in
      let current_roll_rate = or_default t.roll_rate_rads (fl.lit 0 1) in
      let history = push_roll (roll_of t) s.roll_history in
      let list_rad = persistent_list m history in
      let u_steering =
        fl.mul (fl.lit 16 1) (fl.sub (or_default target_yaw_rate (fl.lit 0 1)) current_yaw_rate) in
      let speed_knots = fl.mul current_speed (fl.lit 194384 5) in
      let lead =
        fl.mul (fl.mul (fl.lit 2 2) (m.sin current_yaw_rate)) (fl.div speed_knots (fl.lit 300 1)) in
      let control = roll_control t w list_rad in
      let damping =
        fl.mul (fl.mul (fl.lit 24 1) (fl.div (m.square current_speed) (fl.lit 1000 1)))
          current_roll_rate in
      let delta_port_rad =
        fl.add (fl.sub (fl.add u_steering control.u_roll_control) damping) lead in
      let delta_stbd_rad =
        fl.sub (fl.sub (fl.sub u_steering control.u_roll_control) damping) lead in
      let port_out = clamp (fl.neg s.max_actuator) s.max_actuator (m.degrees delta_port_rad) in
      let stbd_out = clamp (fl.neg s.max_actuator) s.max_actuator (m.degrees delta_stbd_rad) in
      (
        record {
          port_actuator_deg = fl.round 2 port_out;
          stbd_actuator_deg = fl.round 2 stbd_out;
          firing_interlock_cleared = control.ready_to_fire;
          tracking_mode = control.mode;
          asymmetric_split_delta_deg = fl.round 2 (fl.abs (fl.sub port_out stbd_out));
          vessel_storm_list_deg = fl.round 2 (m.degrees list_rad);
        },
        record s { roll_history = history },
      )

  -- The report, as the two-channel serializer reads it.
  abbrev pub channels_of : StabilizerReport F → StabilizerOutput F
  channels_of r = record {
    command_port_actuator_deg = some r.port_actuator_deg;
    command_stbd_actuator_deg = some r.stbd_actuator_deg;
    stabilization_state = some r.tracking_mode;
  }
