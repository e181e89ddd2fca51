-- ===== src/Tests/Steering.antt =====
-- The steering gear's feedback (Feedback), with the numbers of Floats.Milli.
use univac.Base.{◌≡◌, refl, true, [], ◌∷◌}
use univac.Base.Int.{ℤ, pos, magnitude, ◌-ℤ◌, ◌+ℤ◌}
use univac.Text.{codes, contains, upper, upper_char}
use univac.Floats.Milli.{milli, read_number}
use univac.Nmea.{frame, payload_of, is_field}
use univac.Feedback.{Receiver, Feedback, initial, track, process_hardware_feedback}
use univac.Feedback.Status.{
  IsConsistent, receive_all, process_hardware_feedback-frame, receive_all-IsConsistent,
}
use univac.Feedback.Jam.{Tracked, track_all, track_all_behind}

abbrev rexroth : Receiver ℤ
rexroth = initial (codes "REX")

abbrev reading : Feedback ℤ
reading = record { measured_deg = pos 4000; status_hex = codes "0001"; temp_c = pos 31500 }

abbrev far_off : Tracked ℤ
far_off = record { feedback = reading; ordered = pos 9000; dt = pos 800 }

process_hardware_feedback-frame_example :
    process_hardware_feedback rexroth
      (frame (payload_of (codes "PREXAK" ∷ codes "4.0" ∷ codes "0001" ∷ codes "31.5" ∷ [])))
      (pos 9000)
      (pos 800)
    ≡ track rexroth reading (pos 9000) (pos 800)
unfolding initial is_field contains read_number upper upper_char
process_hardware_feedback-frame_example =
    process_hardware_feedback-frame rexroth (codes "4.0") (codes "0001") (codes "31.5") (pos 9000)
      (pos 800) (pos 4000) (pos 31500) refl refl refl

receive_all-IsConsistent_example : IsConsistent (
    receive_all
      (initial (codes "REX"))
      (record { raw_sentence = codes "noise"; ordered_rudder_deg = pos 0; dt = pos 20 } ∷ []))
receive_all-IsConsistent_example =
    receive_all-IsConsistent (codes "REX")
      (record { raw_sentence = codes "noise"; ordered_rudder_deg = pos 0; dt = pos 20 } ∷ [])

track_all_behind_example :
    let r' = track_all rexroth (far_off ∷ far_off ∷ []) in
    (r'.consecutive_error_seconds ≡ pos 1600) × (r'.latest_status.linkage_tracking_jammed ≡ true)
unfolding initial magnitude ◌-ℤ◌ ◌+ℤ◌
track_all_behind_example = track_all_behind (far_off ∷ []) rexroth far_off (refl, tt) refl
