-- ===== src/Config/Serial.antt =====
-- hardware_serial_validator.py: the loopback test of one port. The answers of the wire are given, one
-- to each frame; a SerialException is the flag that the port failed. The threads of the ports do not
-- share any state but the results, and are not modelled.
use univac.Base.{
  ℕ, suc, ◌+◌, ◌/◌, ◌%◌, Bool, false, ◌&&◌, List, [], ◌∷◌, length, ◌==◌, if◌then◌else◌,
}
use univac.Text.{Text, codes, strip, upper, contains, split, equal}
use univac.Nmea.{checksum_of, frame, payload_of}
use univac.Routing.Listener.{decode_ascii}

pub data IntegrityStatus : Type 0 where
  integrity_passed integrity_failed port_unavailable : IntegrityStatus

pub record PortResults : Type 0 where
  pub frames_transmitted : ℕ
  pub frames_received : ℕ
  pub checksum_failures : ℕ
  pub line_timeouts : ℕ

unfoldable pub no_results : PortResults
no_results = record {
  frames_transmitted = 0;
  frames_received = 0;
  checksum_failures = 0;
  line_timeouts = 0;
}

-- f"{step:03d}" for a step below 1000.
unfoldable pub step03 : ℕ → Text
step03 n = (48 + n / 100 % 10) ∷ (48 + n / 10 % 10) ∷ (48 + n % 10) ∷ []

-- The sentence that is written in a step.
unfoldable pub outbound_sentence : Text → ℕ → Text
outbound_sentence id step = frame (payload_of (codes "PUNVCDG" ∷ id ∷ step03 step ∷ []))

-- The parts of the answer: unpacking other than two raises.
unfoldable pub echo_parts : List Text → Bool
echo_parts (body ∷ received_cs ∷ []) = equal (checksum_of body) (upper received_cs)
echo_parts _ = false

-- `inbound_str` is a sentence with its checksum.
unfoldable pub is_echo : Text → Bool
is_echo [] = false
is_echo (c ∷ rest) =
    if c == b'$' && contains b'*' (c ∷ rest) then echo_parts (split b'*' rest) else false

-- One step, by what `readline` answers: no bytes are a timeout.
unfoldable pub audit_frame : Text → PortResults → PortResults
audit_frame [] r = record r {
  frames_transmitted = suc r.frames_transmitted;
  line_timeouts = suc r.line_timeouts;
}
audit_frame (c ∷ inbound_raw) r =
    if is_echo (strip (decode_ascii (c ∷ inbound_raw)))
    then record r {
      frames_transmitted = suc r.frames_transmitted;
      frames_received = suc r.frames_received;
    }
    else record r {
      frames_transmitted = suc r.frames_transmitted;
      checksum_failures = suc r.checksum_failures;
    }

abbrev pub audit_frames : List Text → PortResults → PortResults
audit_frames [] r = r
audit_frames (a ∷ answers) r = audit_frames answers (audit_frame a r)

-- `_stress_test_isolated_port`: the counts and the status, for the answers to `frame_count` frames.
unfoldable pub stress_test_isolated_port :
    (port_fails : Bool) (answers : List Text) → PortResults × IntegrityStatus
stress_test_isolated_port port_fails answers =
    let results = audit_frames answers no_results in
    (
      results,
      if port_fails
          then port_unavailable
          else if results.frames_received == length answers && results.checksum_failures == 0
          then integrity_passed
          else integrity_failed,
    )
