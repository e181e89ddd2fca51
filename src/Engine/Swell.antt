-- ===== src/Engine/Swell.antt =====
-- What the wave processor remembers, and what it commands.
use univac.Base.{◌≡◌, refl, sym, ap, ◌∙◌, true, Option, some, List, [], ◌∷◌, ◌++◌, length, ◌>>=◌}
use mathlib.Core.List.{append_assoc, append-nil}
use univac.Floats.{Floating, FloatLaws}
use univac.Floats.Math.{MathLib, MathLaws}
use univac.Engine.Bridge.{shift_in, zero_f}
use univac.Engine.Deck.{drop}
use univac.Engine.Limits.{Between, clamp_symmetric, rounded}
use univac.Engine.Waves.{
  WaveProcessor, WaveMetrics, WaveReport, new_processor, execute_feature_40_ar_filter,
  execute_feature_42_torque_attenuation, wave_matrix, process_wave_matrix,
}

-- The history behind some readings.
abbrev pub shift_all : {F : Type 0} → List F → List F → List F
shift_all [] h = h
shift_all (x ∷ xs) h = shift_all xs (shift_in x h)

shift_all-drop : {F : Type 0} (xs h : List F) → shift_all xs h ≡ drop (length xs) (h ++ xs)
shift_all-drop [] h = sym (append-nil h)
shift_all-drop (x ∷ xs) [] = shift_all-drop xs []
shift_all-drop (x ∷ xs) (y ∷ h) =
    shift_all-drop xs (h ++ (x ∷ [])) ∙ ap (drop (length xs)) (append_assoc h (x ∷ []) xs)

-- A call of the processor whose required keys are present.
pub record WaveInput (F : Type 0) : Type 0 where
  pub raw_bow : F
  pub base_torque_nm : F
  pub rudder_in_deg : F
  pub nominal_shaft_depth : Option F
  pub dt : F

abbrev pub metrics_of : {F : Type 0} → WaveInput F → WaveMetrics F
metrics_of i = record {
  bow_sensor_meters = some i.raw_bow;
  nominal_calculated_torque_nm = some i.base_torque_nm;
  unfiltered_rudder_deg = some i.rudder_in_deg;
  nominal_shaft_depth_meters = i.nominal_shaft_depth;
}

abbrev pub readings : {F : Type 0} → List (WaveInput F) → List F
readings [] = []
readings (i ∷ l) = i.raw_bow ∷ readings l

module _ {F : Type 0} ⦃fl : Floating F⦄ (laws : FloatLaws fl) (m : MathLib F)
    (mlaws : MathLaws fl m) where
  -- The report of the last call and the processor behind it, of a run of calls.
  abbrev pub wave_run :
      List (WaveInput F) → WaveInput F → WaveProcessor F → Option (WaveReport F × WaveProcessor F)
  wave_run [] i p = process_wave_matrix m (metrics_of i) i.dt p
  wave_run (c ∷ l) i p = process_wave_matrix m (metrics_of c) c.dt p >>= λ r. wave_run l i r.1

  -- The history behind the call, the torque within the rounded limits.
  abbrev pub SwellReport : F → List F → WaveReport F × WaveProcessor F → Type 0
  SwellReport max_torque history (r, p) =
      (p.elevation_history ≡ history)
      × Between laws m mlaws (fl.round 1 (fl.neg max_torque)) (fl.round 1 max_torque)
          r.command_motor_torque_nm

  -- The call's answer, with a report of this kind.
  abbrev pub Answers : F → List F → Option (WaveReport F × WaveProcessor F) → Type 0
  Answers max_torque history o =
      (out : WaveReport F × WaveProcessor F) × (o ≡ some out) × SwellReport max_torque history out

  wave_run-Answers :
      (l : List (WaveInput F)) (i : WaveInput F) (p : WaveProcessor F)
      → fl.le zero_f p.max_torque ≡ true
      → Answers p.max_torque
          (shift_all (readings l ++ (i.raw_bow ∷ [])) p.elevation_history)
          (wave_run l i p)
  unfolding process_wave_matrix wave_matrix execute_feature_40_ar_filter
      execute_feature_42_torque_attenuation
  wave_run-Answers [] i p h =
      (_, refl, (refl, rounded laws m mlaws 1 _ _ (clamp_symmetric laws m mlaws p.max_torque _ h)))
  wave_run-Answers (c ∷ l) i p h = wave_run-Answers l i _ h

  -- With a torque limit that is not negative, after any calls with the required keys, a call
  -- answers; the history is then the last five readings of the run, zeros standing for the missing
  -- ones, and the torque lies between the rounded negative and positive limit.
  pub process_wave_matrix-Answers :
      (diameter max_torque : F) (l : List (WaveInput F)) (i : WaveInput F)
      → fl.le zero_f max_torque ≡ true
      → let rs = readings l ++ (i.raw_bow ∷ []) in
        Answers max_torque
          (drop (length rs) ((zero_f ∷ zero_f ∷ zero_f ∷ zero_f ∷ zero_f ∷ []) ++ rs))
          (wave_run l i (new_processor diameter max_torque))
  unfolding new_processor
  process_wave_matrix-Answers diameter max_torque l i h =
      rw
        (← shift_all-drop (readings l ++ (i.raw_bow ∷ []))
          (zero_f ∷ zero_f ∷ zero_f ∷ zero_f ∷ zero_f ∷ []))
        (wave_run-Answers l i (new_processor diameter max_torque) h)
