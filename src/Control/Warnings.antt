-- ===== src/Control/Warnings.antt =====
-- control_core/central_warning_registry.py: the physical warnings and the shutdown of the torque.
use univac.Base.{
  ℕ, ◌+◌, ◌*◌, ◌<◌, ◌≡◌, ◌↔◌, ◌≢◌, ◌/◌, ◌%◌, Bool, true, ◌&&◌, ◌||◌, Option, some, List, [], ◌∷◌,
  ◌++◌, arith, or_default, to_bit, if◌then◌else◌, is_empty,
}
use univac.Floats.{Floating, max_of, min_of}

pub data WarningFault : Type 0 where
  core_thermal_critical fire_alarm_magazine_deluge : WarningFault
  attitude_envelope_exceeded_roll crash_imminent_collision : WarningFault

-- The keys of the telemetry that are read.
pub record HullTelemetry (F : Type 0) : Type 0 where
  pub depth : Option F
  pub computer_temperature_c : Option F
  pub magazine_temperature_c : Option F
  pub roll_angle_rad : Option F
  pub distance_to_obstacle_meters : Option F
  pub speed_ms : Option F

pub record WarningRegistry (F : Type 0) : Type 0 where
  pub draft : F
  pub active_warning_mask : ℕ
  pub fault_messages : List WarningFault

-- The five gates; the mask's bits 0 to 4.
pub record Gates : Type 0 where
  pub water : Bool
  pub heat : Bool
  pub fire : Bool
  pub attitude : Bool
  pub crash : Bool

module _ {F : Type 0} ⦃fl : Floating F⦄ (degrees : F → F) where
  unfoldable pub gates_of : F → HullTelemetry F → Gates
  gates_of draft t =
      let distance = or_default t.distance_to_obstacle_meters (fl.lit 5000 1) in
      let speed = or_default t.speed_ms (fl.lit 0 1) in
      let time_to_impact = fl.div distance (max_of (fl.lit 1 1) speed) in
      record {
        water = fl.le (fl.sub (or_default t.depth (fl.lit 500 1)) draft) (fl.lit 10 1);
        heat = fl.le (fl.lit 850 1) (or_default t.computer_temperature_c (fl.lit 250 1));
        fire = fl.le (fl.lit 700 1) (or_default t.magazine_temperature_c (fl.lit 220 1));
        attitude =
            fl.le (fl.lit 250 1) (degrees (fl.abs (or_default t.roll_angle_rad (fl.lit 0 1))));
        crash = fl.le time_to_impact (fl.lit 30 1) && fl.lt distance (fl.lit 500 1);
      }

-- The bits that `|=` sets, each in its own place.
unfoldable pub mask_of : Gates → ℕ
mask_of g =
    to_bit g.water
    + (to_bit g.heat * 2 + (to_bit g.fire * 4 + (to_bit g.attitude * 8 + to_bit g.crash * 16)))

-- The messages that are appended: there is none for water.
unfoldable pub messages_of : Gates → List WarningFault
messages_of g =
    (if g.heat then core_thermal_critical ∷ [] else [])
    ++ ((if g.fire then fire_alarm_magazine_deluge ∷ [] else [])
        ++ ((if g.attitude then attitude_envelope_exceeded_roll ∷ [] else [])
            ++ (if g.crash then crash_imminent_collision ∷ [] else [])))

abbrev pub shutdown_of : Gates → Bool
shutdown_of g = g.water || g.fire || g.crash

module _ {F : Type 0} ⦃fl : Floating F⦄ where
  -- targets['rpm'] under a heat warning
  abbrev pub scale_rpm : Gates → Option F → Option F
  scale_rpm g rpm =
      if g.heat then some (min_of (or_default rpm (fl.lit 5000 1)) (fl.lit 1500 1)) else rpm

  -- `evaluate_physical_warning_gates`: the new registry, the ordered revolutions left in `targets`,
  -- and whether the torque is shut down.
  unfoldable pub evaluate_physical_warning_gates :
      (F → F) → HullTelemetry F → Option F → WarningRegistry F → WarningRegistry F × Option F × Bool
  unfolding gates_of mask_of messages_of
  evaluate_physical_warning_gates degrees telemetry rpm s =
      let g = gates_of degrees s.draft telemetry in
      (
        record s { active_warning_mask = mask_of g; fault_messages = messages_of g },
        scale_rpm g rpm,
        shutdown_of g,
      )

mask_of-bits :
    (g : Gates)
    → (mask_of g % 2 ≡ to_bit g.water)
      × (mask_of g / 2 % 2 ≡ to_bit g.heat)
      × (mask_of g / 4 % 2 ≡ to_bit g.fire)
      × (mask_of g / 8 % 2 ≡ to_bit g.attitude)
      × (mask_of g / 16 % 2 ≡ to_bit g.crash)
      × (mask_of g < 32)
unfolding mask_of
mask_of-bits g = ground arith

messages_of-is_empty : (g : Gates) → (is_empty (messages_of g) ≡ true) ↔ (mask_of g / 2 ≡ 0)
unfolding messages_of mask_of
messages_of-is_empty g = ground arith

shutdown_of_iff :
    (g : Gates) → (shutdown_of g ≡ true) ↔ (to_bit g.water + to_bit g.fire + to_bit g.crash ≢ 0)
shutdown_of_iff g = ground arith

module _ {F : Type 0} ⦃fl : Floating F⦄ where
  -- The mask is below 32, and its bits say which of the five gates tripped, whatever stood in it
  -- before. The torque is shut down exactly when bit 0, 2 or 4 is set. The list of messages is
  -- empty exactly when bits 1 to 4 are clear: a grounding warning alone leaves no message.
  pub evaluate_physical_warning_gates_lem :
      (degrees : F → F) (t : HullTelemetry F) (rpm : Option F) (s : WarningRegistry F)
      → let g = gates_of degrees s.draft t in
        let (s', rpm', force_torque_shutdown) = evaluate_physical_warning_gates degrees t rpm s in
        let mask = s'.active_warning_mask in
        (mask < 32)
        × (mask % 2 ≡ to_bit g.water)
        × (mask / 2 % 2 ≡ to_bit g.heat)
        × (mask / 4 % 2 ≡ to_bit g.fire)
        × (mask / 8 % 2 ≡ to_bit g.attitude)
        × (mask / 16 % 2 ≡ to_bit g.crash)
        × ((force_torque_shutdown ≡ true) ↔ (mask % 2 + mask / 4 % 2 + mask / 16 % 2 ≢ 0))
        × ((is_empty s'.fault_messages ≡ true) ↔ (mask / 2 ≡ 0))
  unfolding evaluate_physical_warning_gates
  evaluate_physical_warning_gates_lem degrees t rpm s =
      let g = gates_of degrees s.draft t in
      let bits = mask_of-bits g in
      (
        bits.5,
        bits.0,
        bits.1,
        bits.2,
        bits.3,
        bits.4,
        rw (bits.0, bits.2, bits.4) (shutdown_of_iff g),
        messages_of-is_empty g,
      )
