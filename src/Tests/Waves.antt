-- ===== src/Tests/Waves.antt =====
-- The channel, the waves and the bank tables, with the numbers of Floats.Milli.
use univac.Base.{ℕ, ◌≡◌, ◌⊎◌, refl, true, false, some, List, [], ◌∷◌, ◌++◌, length}
use univac.Base.Int.{ℤ, pos, negsuc, ◌*ℤ◌, magnitude}
use univac.Text.{codes}
use univac.Floats.Milli.{milli, milli_laws}
use univac.Floats.MilliMath.{milli_math, milli_math_laws}
use univac.Engine.Bridge.{zero_f}
use univac.Engine.Deck.{drop}
use univac.Engine.Trim.{
  TrimPlant, TrimTelemetry, compile_nominal_report, is_open_water,
  calculate_asymmetric_channel_trim,
}
use univac.Engine.Channel.{TrimWithin, calculate_asymmetric_channel_trim-TrimWithin}
use univac.Engine.Waves.{new_processor}
use univac.Engine.Swell.{WaveInput, Answers, wave_run, readings, process_wave_matrix-Answers}
use univac.Engine.Bank.{clamp_depth, clamp_distance, bank_coefficients}
use univac.Engine.Tables.{Returns, bank_coefficients-Returns}

abbrev plant : TrimPlant ℤ
plant = record {
  hull_length = pos 45_000;
  beam = pos 9_500;
  draft = pos 3_200;
  max_rudder = pos 35_000;
}

-- 8.5 metres off the starboard wall.
abbrev channel : TrimTelemetry ℤ
channel = record {
  speed_ms = some (pos 5_140);
  depth = some (pos 4_500);
  distance_to_bank_meters = some (pos 8_500);
  bank_lateral_side = some (codes "starboard");
}

is_near : is_open_water plant channel ≡ false
unfolding is_open_water ◌*ℤ◌ magnitude
is_near = refl

calculate_asymmetric_channel_trim-TrimWithin_example :
    ((is_open_water plant channel ≡ true)
      × (calculate_asymmetric_channel_trim milli_math plant channel ≡ compile_nominal_report))
    ⊎ ((is_open_water plant channel ≡ false)
        × TrimWithin milli_laws milli_math milli_math_laws plant channel
            (calculate_asymmetric_channel_trim milli_math plant channel))
unfolding ◌*ℤ◌ magnitude
calculate_asymmetric_channel_trim-TrimWithin_example =
    calculate_asymmetric_channel_trim-TrimWithin milli_laws milli_math milli_math_laws plant channel
      refl

-- The bow drops into a trough.
abbrev trough : WaveInput ℤ
trough = record {
  raw_bow = negsuc 2_399;
  base_torque_nm = pos 65_000_000;
  rudder_in_deg = pos 15_000;
  nominal_shaft_depth = some (pos 3_800);
  dt = pos 100;
}

abbrev swell : List (WaveInput ℤ)
swell = record trough { raw_bow = pos 1_200 } ∷ record trough { raw_bow = pos 300 } ∷ []

process_wave_matrix-Answers_example :
    let rs = readings swell ++ (trough.raw_bow ∷ []) in
    Answers milli_laws milli_math milli_math_laws
      (pos 85_000_000)
      (drop (length rs) ((zero_f ∷ zero_f ∷ zero_f ∷ zero_f ∷ zero_f ∷ []) ++ rs))
      (wave_run milli_laws milli_math milli_math_laws swell trough
        (new_processor (pos 3_200) (pos 85_000_000)))
process_wave_matrix-Answers_example =
    process_wave_matrix-Answers milli_laws milli_math milli_math_laws (pos 3_200) (pos 85_000_000)
      swell trough refl

-- A search that answers the end of the axis.
abbrev last_place : List ℤ → ℤ → ℕ
last_place axis v = length axis

bank_coefficients-Returns_example :
    Returns (bank_coefficients last_place (pos 9_000) (pos 200))
    × (milli.le (milli.lit 11 1) (clamp_depth (pos 9_000)) ≡ true)
    × (milli.le (clamp_depth (pos 9_000)) (milli.lit 40 1) ≡ true)
    × (milli.le (milli.lit 5 1) (clamp_distance (pos 200)) ≡ true)
    × (milli.le (clamp_distance (pos 200)) (milli.lit 50 1) ≡ true)
bank_coefficients-Returns_example =
    bank_coefficients-Returns milli_laws last_place (pos 9_000) (pos 200)
