-- ===== src/Engine/Ring.antt =====
-- control_core/cognitive_ring_processor.py. The hull's length and the torque, which no formula
-- reads, and the constant status text are left out.
use univac.Base.{◌≡◌, Bool, true, false, ◌&&◌, Option, or_default, if◌then◌else◌, arith}
use univac.Floats.{Floating, FloatLaws, clamp, clamp_bounds}
use univac.Floats.Math.{MathLib, MathLaws}

-- The keys of the live telemetry.
pub record RingTelemetry (F : Type 0) : Type 0 where
  pub tesla_input_current_amps : Option F
  pub tesla_tower_height_meters : Option F
  pub enemy_radar_frequency_hz : Option F
  pub latitude_decimal : Option F
  pub hours_on_watch : Option F

pub record RingReport (F : Type 0) : Type 0 where
  pub tesla_radiated_power_watts : F
  pub mimic_decoy_phase_shift_rad : F
  pub legal_boundary_alert_active : Bool
  pub operator_attention_percentage : F

module _ {F : Type 0} ⦃fl : Floating F⦄ (m : MathLib F) where
  unfoldable pub execute_feature_141_tesla_resonance : (tower_height_m input_current_amps : F) → F
  execute_feature_141_tesla_resonance tower_height_m input_current_amps =
      let mu_0 = fl.mul (fl.mul (fl.lit 40 1) fl.pi) (fl.lit 1 7) in
      let coil_inductance =
        fl.div
          (fl.mul (fl.mul (fl.mul mu_0 (m.square tower_height_m)) fl.pi) (m.square (fl.lit 150 1)))
          tower_height_m in
      let stored_energy =
        fl.mul (fl.mul (fl.lit 5 1) coil_inductance) (m.square input_current_amps) in
      let radiated_power_watts = fl.mul (fl.mul stored_energy (fl.lit 783 2)) (fl.lit 84 3) in
      if fl.le tower_height_m (fl.lit 1 1)
      then fl.lit 0 1
      else clamp (fl.lit 0 1) (fl.lit 10_000_000_000 1) radiated_power_watts

  unfoldable pub execute_feature_152_mimic_decoy :
      (incoming_radar_freq_hz desired_offset_meters : F) → F
  execute_feature_152_mimic_decoy incoming_radar_freq_hz desired_offset_meters =
      let wavelength = fl.div (fl.lit 2_997_924_580 1) incoming_radar_freq_hz in
      let full_turn = fl.mul (fl.lit 20 1) fl.pi in
      let phase_shift_rad = fl.div (fl.mul full_turn desired_offset_meters) wavelength in
      if fl.le incoming_radar_freq_hz (fl.lit 10 1)
      then fl.lit 0 1
      else fl.rem phase_shift_rad full_turn

  unfoldable pub process_cognitive_step : RingTelemetry F → RingReport F
  process_cognitive_step live_telemetry =
      let raw_current = or_default live_telemetry.tesla_input_current_amps (fl.lit 0 1) in
      let tower_ht = or_default live_telemetry.tesla_tower_height_meters (fl.lit 550 1) in
      let radar_freq =
        or_default live_telemetry.enemy_radar_frequency_hz (fl.lit 30_000_000_000 1) in
      let lat = fl.abs (or_default live_telemetry.latitude_decimal (fl.lit 0 1)) in
      let hours_on_watch = or_default live_telemetry.hours_on_watch (fl.lit 20 1) in
      let operator_attention_scale = fl.div (fl.lit 10 1) (
        fl.add (fl.lit 10 1) (m.exp (fl.mul (fl.lit 4 1) (fl.sub hours_on_watch (fl.lit 40 1))))) in
      record {
        tesla_radiated_power_watts =
            fl.round 1 (execute_feature_141_tesla_resonance tower_ht raw_current);
        mimic_decoy_phase_shift_rad =
            fl.round 4 (execute_feature_152_mimic_decoy radar_freq (fl.lit 2500 1));
        legal_boundary_alert_active = fl.lt (fl.lit 450 1) lat && fl.lt lat (fl.lit 460 1);
        operator_attention_percentage =
            fl.round 1 (fl.mul operator_attention_scale (fl.lit 1000 1));
      }

  clamp_or_low :
      (laws : FloatLaws fl) (b : Bool) (lo hi x : F)
      → fl.le lo lo ≡ true
      → fl.le hi hi ≡ true
      → fl.le lo hi ≡ true
      → let y = if b then lo else clamp lo hi x in (fl.le lo y ≡ true) × (fl.le y hi ≡ true)
  clamp_or_low laws true lo hi x rl rh lh = (rl, lh)
  clamp_or_low laws false lo hi x rl rh lh = clamp_bounds laws lo hi x rl rh lh

  resonance_bounds :
      (laws : FloatLaws fl) (h i : F)
      → let power = execute_feature_141_tesla_resonance h i in
        (fl.le (fl.lit 0 1) power ≡ true) × (fl.le power (fl.lit 10_000_000_000 1) ≡ true)
  unfolding execute_feature_141_tesla_resonance
  resonance_bounds laws h i =
      clamp_or_low laws (fl.le h (fl.lit 1 1)) (fl.lit 0 1) (fl.lit 10_000_000_000 1) _
        (laws.lit_mono 0 0 1 (omega arith))
        (laws.lit_mono 10_000_000_000 10_000_000_000 1 (omega arith))
        (laws.lit_mono 0 10_000_000_000 1 (omega arith))

  -- Whatever the telemetry holds, the reported power lies between the rounded 0.0 and 1e9.
  pub process_cognitive_step-bounds :
      (laws : FloatLaws fl) (mlaws : MathLaws fl m) (t : RingTelemetry F)
      → let power = (process_cognitive_step t).tesla_radiated_power_watts in
        (fl.le (fl.round 1 (fl.lit 0 1)) power ≡ true)
        × (fl.le power (fl.round 1 (fl.lit 10_000_000_000 1)) ≡ true)
  unfolding process_cognitive_step
  process_cognitive_step-bounds laws mlaws t =
      let (low, high) = resonance_bounds laws _ _ in
      (mlaws.round_mono 1 _ _ low, mlaws.round_mono 1 _ _ high)
