-- ===== src/Encoders/Gray.antt =====
-- network_layer/cray_gray_code_parser.py: the shaft encoder's Gray code. The raw word is a
-- non-negative integer, and its mask of k ones is the remainder by 2 ^ k.
use univac.Base.{ℕ, zero, suc, ◌/◌, ◌%◌, ◌^◌, ◌==◌, bit_xor, if◌then◌else◌}
use univac.Floats.{Floating}

-- The keys of `latest_decoded_telemetry` that hold data.
pub record DecodedTelemetry (F : Type 0) : Type 0 where
  pub raw_gray_word : ℕ
  pub decoded_binary_integer : ℕ
  pub calibrated_shaft_angle_deg : F

-- `while shift_register >> 1: shift_register >>= 1; binary_integer ^= shift_register`, with as many
-- rounds at most as the fuel.
unfoldable pub shift_loop : ℕ → ℕ → ℕ → ℕ
shift_loop zero binary_integer shift_register = binary_integer
shift_loop (suc fuel) binary_integer shift_register =
    let next = shift_register / 2 in
    let rest = shift_loop fuel (bit_xor binary_integer next) next in
    if next == 0 then binary_integer else rest

-- The loop halves the register: as many rounds as its value are enough.
unfoldable pub gray_to_binary : ℕ → ℕ
unfolding shift_loop
gray_to_binary clean_gray = shift_loop clean_gray clean_gray clean_gray

module _ {F : Type 0} ⦃fl : Floating F⦄ where
  -- `decode_cray_gray_word`, with the default resolution of 12 bits passed by the caller
  unfoldable pub decode_cray_gray_word : ℕ → ℕ → DecodedTelemetry F
  decode_cray_gray_word raw_gray_word bits_resolution =
      let clean_gray = raw_gray_word % 2 ^ bits_resolution in
      let binary_integer = gray_to_binary clean_gray in
      let angle_deg =
        fl.mul (fl.div (fl.lit binary_integer 0) (fl.lit (2 ^ bits_resolution) 0))
          (fl.lit 3600 1) in
      record {
        raw_gray_word = clean_gray;
        decoded_binary_integer = binary_integer;
        calibrated_shaft_angle_deg = fl.round 2 angle_deg;
      }
