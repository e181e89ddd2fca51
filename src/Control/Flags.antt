-- ===== src/Control/Flags.antt =====
-- control_core/flag_changer_subroutine.py: which flag is hoisted, and the halyard's motor.
use univac.Base.{
  ℕ, ◌≡◌, ◌↔◌, ◌⊎◌, Bool, true, false, not, ◌||◌, Option, arith, or_default, if◌then◌else◌,
  Bool-cases, inl, inr,
}
use univac.Floats.{Floating}
use univac.Control.Anchor.{WeaponMetrics}

pub data FlagState : Type 0 where
  ensign combat restricted : FlagState

pub data FlagMessage : Type 0 where
  weapons_engaged restricted_channel cruising_profile : FlagMessage

-- The keys of the telemetry that are read.
pub record ChannelTelemetry (F : Type 0) : Type 0 where
  pub distance_to_bank_meters : Option F
  pub shallow_water_slowdown_active : Option Bool

pub record FlagChanger (F : Type 0) : Type 0 where
  pub current_flag_state : FlagState
  pub last_transition_time : F
  pub halyard_motor_position_pct : F

pub record FlagAnswer (F : Type 0) : Type 0 where
  pub active_flag_state_string : FlagState
  pub commanded_halyard_motor_position_pct : F
  pub actuator_motor_power_relay : ℕ
  pub actuator_mechanical_lock_pin : ℕ
  pub telemetry_flag_log_message : FlagMessage

abbrev pub same_flag : FlagState → FlagState → Bool
same_flag ensign ensign = true
same_flag combat combat = true
same_flag restricted restricted = true
same_flag _ _ = false

module _ {F : Type 0} ⦃fl : Floating F⦄ where
  unfoldable pub new_changer : F → FlagChanger F
  new_changer now = record {
    current_flag_state = ensign;
    last_transition_time = now;
    halyard_motor_position_pct = fl.lit 0 1;
  }

  -- (az_rate > 0.02) or firing_active
  abbrev pub weapons_are_active : WeaponMetrics F → Bool
  weapons_are_active w =
      fl.lt (fl.lit 2 2) (fl.abs (or_default w.azimuth_rate_rads (fl.lit 0 1)))
      || or_default w.bus_sync_active false
      || or_default w.engagement_sequence_active false

  abbrev pub is_maneuverability_restricted : ChannelTelemetry F → Bool
  is_maneuverability_restricted t =
      fl.lt (or_default t.distance_to_bank_meters (fl.lit 1000 1)) (fl.lit 200 1)
      || or_default t.shallow_water_slowdown_active false

  -- Steps 1 and 2: the state, the halyard's target and the message.
  unfoldable pub target_flag : WeaponMetrics F → ChannelTelemetry F → FlagState × F × FlagMessage
  target_flag w t =
      if weapons_are_active w
      then (combat, fl.lit 1000 1, weapons_engaged)
      else if is_maneuverability_restricted t
      then (restricted, fl.lit 500 1, restricted_channel)
      else (ensign, fl.lit 0 1, cruising_profile)

  -- The motor is off its target by more than 0.1 %.
  abbrev pub motor_moves : F → FlagChanger F → Bool
  motor_moves target s = fl.lt (fl.lit 1 1) (fl.abs (fl.sub target s.halyard_motor_position_pct))

  -- Step 3, on the outcome of the first two.
  unfoldable pub move_halyard :
      F → FlagState × F × FlagMessage → FlagChanger F → FlagChanger F × FlagAnswer F
  move_halyard now (target_state, halyard_target_pct, action_description) s =
      let error_pct = fl.sub halyard_target_pct s.halyard_motor_position_pct in
      let moves = motor_moves halyard_target_pct s in
      let position =
        if moves
        then fl.add s.halyard_motor_position_pct (fl.mul error_pct (fl.lit 1 1))
        else halyard_target_pct in
      let changed = not (same_flag s.current_flag_state target_state) in
      (
        record {
          current_flag_state = if changed then target_state else s.current_flag_state;
          last_transition_time = if changed then now else s.last_transition_time;
          halyard_motor_position_pct = position;
        },
        record {
          active_flag_state_string = if changed then target_state else s.current_flag_state;
          commanded_halyard_motor_position_pct = fl.round 1 position;
          actuator_motor_power_relay = if moves then 1 else 0;
          actuator_mechanical_lock_pin = if moves then 0 else 1;
          telemetry_flag_log_message = action_description;
        },
      )

  unfoldable pub evaluate_flag_logic_matrix :
      F → WeaponMetrics F → ChannelTelemetry F → FlagChanger F → FlagChanger F × FlagAnswer F
  evaluate_flag_logic_matrix now weapon_state telemetry s =
      move_halyard now (target_flag weapon_state telemetry) s

  move_halyard-state :
      (now : F) (target : FlagState × F × FlagMessage) (s : FlagChanger F)
      → (move_halyard now target s).1.active_flag_state_string ≡ target.0
  unfolding move_halyard
  move_halyard-state now target s = flown s.current_flag_state target.0
    where
      flown : (f g : FlagState) → (if not (same_flag f g) then g else f) ≡ g
      flown f g = ground arith

  move_halyard-motor :
      (now : F) (target : FlagState × F × FlagMessage) (s : FlagChanger F)
      → let (s', out) = move_halyard now target s in
        ((out.actuator_mechanical_lock_pin ≡ 1) ↔ (out.actuator_motor_power_relay ≡ 0))
        × ((out.actuator_motor_power_relay ≡ 1) ⊎ (s'.halyard_motor_position_pct ≡ target.1))
        × (s'.last_transition_time
            ≡ (if same_flag s.current_flag_state target.0 then s.last_transition_time else now))
  unfolding move_halyard
  move_halyard-motor now target s = elim (Bool-cases (motor_moves target.1 s)) [
    | inl e ↦ simp e (ground arith)
    | inr e ↦ simp e (ground arith)
  ]

  target_flag_iff :
      (w : WeaponMetrics F) (t : ChannelTelemetry F)
      → (((target_flag w t).0 ≡ combat) ↔ (weapons_are_active w ≡ true))
        × (((target_flag w t).0 ≡ restricted)
            ↔ ((weapons_are_active w ≡ false) × (is_maneuverability_restricted t ≡ true)))
  unfolding target_flag
  target_flag_iff w t = elim (Bool-cases (weapons_are_active w)) [
    | inl e ↦ simp e (ground arith)
    | inr e ↦ simp e (ground arith)
  ]

  -- Whatever flew before, the battle ensign is ordered exactly when the weapons are active, the
  -- restricted signal exactly when they are not and the channel is restricted, and else the
  -- ensign. The lock pin is in exactly while the motor is off, and a motor that is off stands at
  -- the target's position. The time of the last transition moves exactly when the flag does.
  pub evaluate_flag_logic_matrix_iff :
      (now : F) (w : WeaponMetrics F) (t : ChannelTelemetry F) (s : FlagChanger F)
      → let (s', out) = evaluate_flag_logic_matrix now w t s in
        ((out.active_flag_state_string ≡ combat) ↔ (weapons_are_active w ≡ true))
        × ((out.active_flag_state_string ≡ restricted)
            ↔ ((weapons_are_active w ≡ false) × (is_maneuverability_restricted t ≡ true)))
        × ((out.actuator_mechanical_lock_pin ≡ 1) ↔ (out.actuator_motor_power_relay ≡ 0))
        × ((out.actuator_motor_power_relay ≡ 1)
            ⊎ (s'.halyard_motor_position_pct ≡ (target_flag w t).1))
        × (s'.last_transition_time ≡ (
            if same_flag s.current_flag_state out.active_flag_state_string
            then s.last_transition_time
            else now))
  unfolding evaluate_flag_logic_matrix
  evaluate_flag_logic_matrix_iff now w t s =
      let motor = move_halyard-motor now (target_flag w t) s in
      rw (move_halyard-state now (target_flag w t) s)
        ((target_flag_iff w t).0, (target_flag_iff w t).1, motor.0, motor.1, motor.2)
