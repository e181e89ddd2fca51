-- ===== src/Engine/Channel.antt =====
-- What the channel trim asks of the rudder.
use univac.Base.{◌≡◌, refl, true, false, ◌⊎◌, Bool-cases, inl, inr, arith}
use univac.Floats.{Floating, FloatLaws, min_of}
use univac.Floats.Math.{MathLib, MathLaws}
use univac.Engine.Limits.{Between, clamp_symmetric, rounded}
use univac.Engine.Trim.{
  TrimPlant, TrimTelemetry, TrimReport, compile_nominal_report, is_open_water, trim_limit,
  clamped_trim_deg, channel_report, calculate_asymmetric_channel_trim,
}

module _ {F : Type 0} ⦃fl : Floating F⦄ (laws : FloatLaws fl) (m : MathLib F)
    (mlaws : MathLaws fl m) where
  -- The trim within the rounded limits, the severity at most the rounded 1.0, and the autopilot
  -- overridden exactly from 80 percent of the limit on.
  abbrev pub TrimWithin : TrimPlant F → TrimTelemetry F → TrimReport F → Type 0
  TrimWithin p t r =
      Between laws m mlaws (fl.round 2 (fl.neg (trim_limit p))) (fl.round 2 (trim_limit p))
        r.asymmetric_trim_required_deg
      × (fl.le r.boundary_severity_index (fl.round 3 (fl.lit 10 1)) ≡ true)
      × (r.autopilot_safety_override
          ≡ fl.le (fl.mul (trim_limit p) (fl.lit 8 1)) (fl.abs (clamped_trim_deg m p t)))

  min_of_le : (a x : F) → fl.le a a ≡ true → fl.le (min_of a x) a ≡ true
  min_of_le a x h = ground (arith, laws.le_of_lt x a)

  channel_report-TrimWithin :
      (p : TrimPlant F) (t : TrimTelemetry F)
      → fl.le (fl.lit 0 1) (trim_limit p) ≡ true
      → TrimWithin p t (channel_report m p t)
  unfolding channel_report clamped_trim_deg
  channel_report-TrimWithin p t h = (
    rounded laws m mlaws 2 (trim_limit p) _ (clamp_symmetric laws m mlaws (trim_limit p) _ h),
    mlaws.round_mono 3 _ _ (min_of_le (fl.lit 10 1) _ (laws.lit_mono 10 10 1 (omega arith))),
    refl,
  )

  -- With a trim limit above zero: in open water the report is the nominal one; beside a bank the
  -- trim lies between the rounded negative and positive limit, the severity is at most the rounded
  -- 1.0, and the autopilot is overridden exactly when the clamped trim is at least 80 percent of
  -- the limit.
  pub calculate_asymmetric_channel_trim-TrimWithin :
      (p : TrimPlant F) (t : TrimTelemetry F)
      → fl.lt (fl.lit 0 1) (trim_limit p) ≡ true
      → ((is_open_water p t ≡ true)
          × (calculate_asymmetric_channel_trim m p t ≡ compile_nominal_report))
        ⊎ ((is_open_water p t ≡ false) × TrimWithin p t (calculate_asymmetric_channel_trim m p t))
  unfolding calculate_asymmetric_channel_trim
  calculate_asymmetric_channel_trim-TrimWithin p t h = elim (Bool-cases (is_open_water p t)) [
    | inl far ↦ inl (far, rw far refl)
    | inr near ↦ inr (near, rw near (channel_report-TrimWithin p t (laws.le_of_lt _ _ h)))
  ]
