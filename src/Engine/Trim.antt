-- ===== src/Engine/Trim.antt =====
-- control_core/asymmetric_trim_subroutine.py. The hull's length, beam and draft and the rudder's
-- stop are not zero, as where Python raises ZeroDivisionError.
use univac.Base.{Bool, false, ◌||◌, Option, or_default, if◌then◌else◌}
use univac.Text.{Text, codes, equal}
use univac.Floats.{Floating, max_of, min_of, clamp}
use univac.Floats.Math.{MathLib}

pub record TrimPlant (F : Type 0) : Type 0 where
  pub hull_length : F
  pub beam : F
  pub draft : F
  pub max_rudder : F

pub record TrimTelemetry (F : Type 0) : Type 0 where
  pub speed_ms : Option F
  pub depth : Option F
  pub distance_to_bank_meters : Option F
  pub bank_lateral_side : Option Text

pub record TrimReport (F : Type 0) : Type 0 where
  pub asymmetric_trim_required_deg : F
  pub predicted_bank_moment_nm : F
  pub boundary_severity_index : F
  pub autopilot_safety_override : Bool

module _ {F : Type 0} ⦃fl : Floating F⦄ where
  -- `_compile_nominal_report`
  unfoldable pub compile_nominal_report : TrimReport F
  compile_nominal_report = record {
    asymmetric_trim_required_deg = fl.lit 0 1;
    predicted_bank_moment_nm = fl.lit 0 1;
    boundary_severity_index = fl.lit 0 1;
    autopilot_safety_override = false;
  }

  abbrev pub bank_distance : TrimTelemetry F → F
  bank_distance t = or_default t.distance_to_bank_meters (fl.lit 1000 1)

  -- distance_ratio >= 4.0 or dist_bank > 40.0
  unfoldable pub is_open_water : TrimPlant F → TrimTelemetry F → Bool
  is_open_water p t =
      fl.le (fl.lit 40 1) (fl.div (bank_distance t) p.beam)
      || fl.lt (fl.lit 400 1) (bank_distance t)

  -- self.max_rudder * 0.45
  abbrev pub trim_limit : TrimPlant F → F
  trim_limit p = fl.mul p.max_rudder (fl.lit 45 2)

  unfoldable pub dynamic_pressure : MathLib F → TrimTelemetry F → F
  dynamic_pressure m t =
      let speed_ms = max_of (fl.lit 1 1) (or_default t.speed_ms (fl.lit 0 1)) in
      fl.mul (fl.mul (fl.lit 5 1) (fl.lit 10250 1)) (m.square speed_ms)

  unfoldable pub predicted_bank_moment : MathLib F → TrimPlant F → TrimTelemetry F → F
  predicted_bank_moment m p t =
      let clearance = max_of (fl.lit 2 1) (fl.sub (or_default t.depth (fl.lit 500 1)) p.draft) in
      let clearance_ratio = fl.div clearance p.draft in
      let distance_ratio = fl.div (bank_distance t) p.beam in
      let c_n_base = fl.mul (fl.lit 35 3) (m.exp (fl.mul (fl.neg (fl.lit 85 2)) distance_ratio)) in
      let shallow_amplification =
        fl.add (fl.lit 10 1)
          (fl.mul (fl.lit 6 1) (fl.div (fl.lit 10 1) (m.tanh clearance_ratio))) in
      let c_n_dynamic = fl.mul c_n_base shallow_amplification in
      fl.mul (fl.mul (fl.mul c_n_dynamic (dynamic_pressure m t)) (m.square p.hull_length)) p.draft

  unfoldable pub raw_trim_deg : MathLib F → TrimPlant F → TrimTelemetry F → F
  raw_trim_deg m p t =
      let denom =
        fl.mul (fl.mul (fl.mul (dynamic_pressure m t) (m.square p.hull_length)) p.draft)
          (fl.lit 45 3) in
      m.degrees (
        if fl.lt (fl.lit 1 2) denom then fl.div (predicted_bank_moment m p t) denom else fl.lit 0 1)

  abbrev pub is_starboard : TrimTelemetry F → Bool
  is_starboard t = equal (or_default t.bank_lateral_side (codes "starboard")) (codes "starboard")

  unfoldable pub clamped_trim_deg : MathLib F → TrimPlant F → TrimTelemetry F → F
  clamped_trim_deg m p t =
      clamp (fl.neg (trim_limit p)) (trim_limit p)
        (if is_starboard t then raw_trim_deg m p t else fl.neg (raw_trim_deg m p t))

  -- The report beside a bank.
  unfoldable pub channel_report : MathLib F → TrimPlant F → TrimTelemetry F → TrimReport F
  channel_report m p t =
      let clamped = clamped_trim_deg m p t in
      let moment = predicted_bank_moment m p t in
      let induced_moment = if is_starboard t then fl.neg moment else moment in
      record {
        asymmetric_trim_required_deg = fl.round 2 clamped;
        predicted_bank_moment_nm = fl.round 1 induced_moment;
        boundary_severity_index =
            fl.round 3 (min_of (fl.lit 10 1) (fl.abs (fl.div clamped (trim_limit p))));
        autopilot_safety_override = fl.le (fl.mul (trim_limit p) (fl.lit 8 1)) (fl.abs clamped);
      }

  unfoldable pub calculate_asymmetric_channel_trim :
      MathLib F → TrimPlant F → TrimTelemetry F → TrimReport F
  calculate_asymmetric_channel_trim m p t =
      if is_open_water p t then compile_nominal_report else channel_report m p t
