-- ===== src/Encoders/Spectrum.antt =====
-- network_layer/hex_spectrum_modulator.py: a light flux as one hexadecimal digit. `int(x)` of a
-- float is a parameter; the time stamp is not modelled.
use univac.Base.{ℕ, ◌≡◌, ap, ◌≤◌, ◌<◌, ◌↔◌, true, Bool, [], ◌∷◌, ◌+◌, ◌++◌, arith, leb}
use univac.Text.{Text, codes}
use univac.Text.Hex.{hex_digit, hex_onto, is_hex, hex_digit-is_hex}
use univac.Floats.{Floating, FloatLaws, clamp, clamp_bounds}

pub record SpectrumCache (F : Type 0) : Type 0 where
  pub analog_input_flux_lumen : F
  pub hex_crest_trough_snippet : Text
  pub quantized_voltage_output : F
  pub signal_saturation_alert : Bool

-- HexadecimalSpectrumModulator, by the ceiling of its voltage.
pub record SpectrumModulator (F : Type 0) : Type 0 where
  pub voltage_ceiling : F

one_digit : (n : ℕ) → n ≤ 15 → hex_onto (n + 1) n [] ≡ hex_digit n ∷ []
unfolding hex_onto
one_digit n h = ground arith

saturated : (n : ℕ) → n ≤ 15 → (leb 14 n ≡ true) ↔ (b'D' < hex_digit n)
unfolding hex_digit
saturated n h = ground arith

module _ {F : Type 0} ⦃fl : Floating F⦄ (trunc : F → ℕ) (of_step : ℕ → F) where
  -- int((normalized_flux / 100.0) * 15.0)
  abbrev pub quantized_step : F → ℕ
  quantized_step flux =
      trunc
        (fl.mul (fl.div (clamp (fl.lit 0 1) (fl.lit 1000 1) flux) (fl.lit 1000 1)) (fl.lit 150 1))

  unfoldable pub modulate_flux_to_hex_spectrum : SpectrumModulator F → F → SpectrumCache F
  modulate_flux_to_hex_spectrum s calculated_photon_flux =
      let normalized_flux = clamp (fl.lit 0 1) (fl.lit 1000 1) calculated_photon_flux in
      let step = quantized_step calculated_photon_flux in
      let resolved_voltage = fl.mul (fl.div (of_step step) (fl.lit 150 1)) s.voltage_ceiling in
      record {
        analog_input_flux_lumen = fl.round 2 normalized_flux;
        hex_crest_trough_snippet = codes "0x" ++ hex_onto (step + 1) step [];
        quantized_voltage_output = fl.round 3 resolved_voltage;
        signal_saturation_alert = leb 14 step;
      }

  -- One digit is printed for every flux, whatever it is, and the alert is on for the two highest.
  pub modulate_flux_to_hex_spectrum-digit :
      (laws : FloatLaws fl)
      (small : (x : F)
        → fl.le (fl.lit 0 1) x ≡ true
        → fl.le x (fl.lit 1000 1) ≡ true
        → trunc (fl.mul (fl.div x (fl.lit 1000 1)) (fl.lit 150 1)) ≤ 15)
      (s : SpectrumModulator F) (flux : F)
      → let out = modulate_flux_to_hex_spectrum s flux in
        let digit = hex_digit (quantized_step flux) in
        (out.hex_crest_trough_snippet ≡ b'0' ∷ b'x' ∷ digit ∷ [])
        × (is_hex digit ≡ true)
        × ((out.signal_saturation_alert ≡ true) ↔ (b'D' < digit))
  unfolding modulate_flux_to_hex_spectrum
  modulate_flux_to_hex_spectrum-digit laws small s flux =
      let (low, high) =
        clamp_bounds laws (fl.lit 0 1) (fl.lit 1000 1) flux (laws.lit_mono 0 0 1 (omega arith))
          (laws.lit_mono 1000 1000 1 (omega arith)) (laws.lit_mono 0 1000 1 (omega arith)) in
      let bound = small (clamp (fl.lit 0 1) (fl.lit 1000 1) flux) low high in
      (
        ap (λ t. b'0' ∷ b'x' ∷ t) (one_digit (quantized_step flux) bound),
        hex_digit-is_hex (quantized_step flux) (omega (arith, bound)),
        saturated (quantized_step flux) bound,
      )
