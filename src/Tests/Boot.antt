-- ===== src/Tests/Boot.antt =====
-- The validators of the boot.
use univac.Base.{ℕ, ◌≤◌, ◌≡◌, ◌↔◌, refl, true, false, some, List, [], ◌∷◌, length}
use univac.Text.{Text, codes, equal, strip, strip_right, strip_left, lower, lower_char, is_space}
use univac.Text.Number.{hex_digit_value}
use univac.Config.Profile.{lookup}
use univac.Config.Serial.{
  integrity_passed, port_unavailable, outbound_sentence, stress_test_isolated_port,
}
use univac.Config.Loopback.{IsBalanced, AllReceived, stress_test_isolated_port_iff}
use univac.Config.Handshake.{from_hex, remove_colons, verify_tactical_handshake_frame}
use univac.Config.Echo.{echo, verify_tactical_handshake_frame-echo_iff}
use univac.Encoders.Gray.{gray_to_binary}
use univac.Encoders.GrayLoop.{Shifts, gray_to_binary-Shifts}

-- A plug that answers the first frame and loses the second.
abbrev answers : List Text
answers = outbound_sentence (codes "NMEA0183") 0 ∷ [] ∷ []

stress_test_isolated_port_iff_example :
    let (results, status) = stress_test_isolated_port false answers in
    IsBalanced results
    × (results.frames_transmitted ≡ length answers)
    × ((status ≡ integrity_passed) ↔ AllReceived answers)
    × ((stress_test_isolated_port true answers).1 ≡ port_unavailable)
stress_test_isolated_port_iff_example = stress_test_isolated_port_iff answers

abbrev oui : List ℕ
oui = 0 ∷ 0 ∷ 163 ∷ []

abbrev registry : List (Text × Text)
registry = (codes "early_aegis_cruiser", codes "00:00:A3") ∷ []

verify_tactical_handshake_frame-echo_iff_example :
    (verify_tactical_handshake_frame registry echo (codes " Early_Aegis_Cruiser") 1 0 ≡ some true)
    ↔ (length oui ≡ 3)
unfolding lookup equal strip strip_right strip_left lower is_space lower_char from_hex remove_colons
    hex_digit_value
verify_tactical_handshake_frame-echo_iff_example =
    verify_tactical_handshake_frame-echo_iff registry (codes " Early_Aegis_Cruiser") 1 0
      (codes "00:00:A3") oui refl refl

gray_to_binary-Shifts_example :
    (rounds : ℕ) × (rounds ≤ 13)
    × Shifts 13 13 rounds (gray_to_binary 13)
    × ((n result : ℕ) → Shifts 13 13 n result → (n ≡ rounds) × (result ≡ gray_to_binary 13))
gray_to_binary-Shifts_example = gray_to_binary-Shifts 13
