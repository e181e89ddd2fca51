-- ===== src/Feedback.antt =====
-- network_layer/actuator_telemetry_receiver.py: the node that reads the steering gear's feedback,
-- decodes its fault register and watches that the linkage follows the ordered angle. The status
-- dictionary is a record; the strings of `fault_flags` are the constructors of `Fault`.
pub mod Status
pub mod Jam
use univac.Base.{
  ℕ, ◌-◌, Bool, true, false, not, ◌&&◌, ◌||◌, Option, none, some, List, [], ◌∷◌, ◌++◌, String, ◌==◌,
  if◌then◌else◌, is_empty, take,
}
use univac.Base.Int.{ℤ}
use univac.Text.{Text, codes, strip, upper, split, equal}
use univac.Text.Number.{int16, has_bit}
use univac.Floats.{Floating}
use univac.Nmea.{validate_checksum, fields}

pub data Fault : Type 0 where
  hydraulic_pressure_drop motor_current_overload actuator_thermal_critical : Fault
  feedback_sensor_fault malformed_bitmask_error line_noise_corruption : Fault
  mechanical_linkage_jam parsing_payload_exception : Fault

abbrev fault_code : Fault → ℕ
fault_code hydraulic_pressure_drop = 0
fault_code motor_current_overload = 1
fault_code actuator_thermal_critical = 2
fault_code feedback_sensor_fault = 3
fault_code malformed_bitmask_error = 4
fault_code line_noise_corruption = 5
fault_code mechanical_linkage_jam = 6
fault_code parsing_payload_exception = 7

-- `fault in flags`
abbrev pub has_fault : Fault → List Fault → Bool
has_fault f [] = false
has_fault f (g ∷ l) = fault_code g == fault_code f || has_fault f l

pub record FeedbackStatus (F : Type 0) : Type 0 where
  pub measured_rudder_deg : F
  pub actuator_temperature_c : F
  pub hardware_faults_active : Bool
  pub fault_flags : List Fault
  pub linkage_tracking_jammed : Bool

pub record Receiver (F : Type 0) : Type 0 where
  pub expected_prefix : Text
  pub consecutive_error_seconds : F
  pub tracking_error_threshold_deg : F
  pub max_error_time_allowed_sec : F
  pub latest_status : FeedbackStatus F

module _ {F : Type 0} where
  -- `if flag not in fault_flags: fault_flags.append(flag)`
  unfoldable pub flag_once : Fault → Receiver F → Receiver F
  flag_once f r = record r {
    latest_status = record r.latest_status {
      fault_flags =
          if has_fault f r.latest_status.fault_flags
          then r.latest_status.fault_flags
          else r.latest_status.fault_flags ++ (f ∷ []);
    };
  }

-- The flags of the register's low four bits, in the order of the tests.
unfoldable pub mask_faults : ℤ → List Fault
mask_faults mask =
    (if has_bit 0 mask then hydraulic_pressure_drop ∷ [] else [])
    ++ ((if has_bit 1 mask then motor_current_overload ∷ [] else [])
        ++ ((if has_bit 2 mask then actuator_thermal_critical ∷ [] else [])
            ++ (if has_bit 3 mask then feedback_sensor_fault ∷ [] else [])))

-- The answer for a register that was read, or could not be.
unfoldable pub flags_of : Option ℤ → Bool × List Fault
unfolding mask_faults
flags_of none = (true, malformed_bitmask_error ∷ [])
flags_of (some mask) = (not (is_empty (mask_faults mask)), mask_faults mask)

unfoldable pub decode_status_flags : Text → Bool × List Fault
decode_status_flags hex_string = flags_of (int16 hex_string)

-- The `bytes` after the first character, `s[1:]`.
abbrev pub drop_first : Text → Text
drop_first [] = []
drop_first (c ∷ s) = s

pub record Feedback (F : Type 0) : Type 0 where
  pub measured_deg : F
  pub status_hex : Text
  pub temp_c : F

module _ {F : Type 0} ⦃fl : Floating F⦄ where
  -- ActuatorTelemetryReceiverNode(manufacturer_code)
  unfoldable pub initial : Text → Receiver F
  initial manufacturer_code = record {
    expected_prefix = codes "P" ++ (take 4 (upper manufacturer_code) ++ codes "AK");
    consecutive_error_seconds = fl.lit 0 1;
    tracking_error_threshold_deg = fl.lit 25 1;
    max_error_time_allowed_sec = fl.lit 15 1;
    latest_status = record {
      measured_rudder_deg = fl.lit 0 1;
      actuator_temperature_c = fl.lit 250 1;
      hardware_faults_active = false;
      fault_flags = [];
      linkage_tracking_jammed = false;
    };
  }

  -- `float(parts[1])`, `parts[2]`, `float(parts[3])`; none is IndexError or ValueError.
  unfoldable pub read_feedback : List Text → Option (Feedback F)
  read_feedback (header ∷ angle ∷ status_hex ∷ temp ∷ more) = elim (fl.read angle) [
    | none ↦ none
    | some a ↦ elim (fl.read temp) [
      | none ↦ none
      | some t ↦ some (record { measured_deg = a; status_hex = status_hex; temp_c = t })
    ]
  ]
  read_feedback _ = none

  -- The linkage test and the new cache: the error clock runs while the rudder is off its order by
  -- more than the threshold, and a jam is declared once it reaches the limit.
  unfoldable pub track : Receiver F → Feedback F → F → F → Receiver F
  unfolding decode_status_flags
  track r fb ordered dt =
      let (is_faulted, active_faults) = decode_status_flags fb.status_hex in
      let tracking_deviation = fl.abs (fl.sub ordered fb.measured_deg) in
      let behind = fl.lt r.tracking_error_threshold_deg tracking_deviation in
      let clock = if behind then fl.add r.consecutive_error_seconds dt else fl.lit 0 1 in
      let jammed = behind && fl.le r.max_error_time_allowed_sec clock in
      record r {
        consecutive_error_seconds = clock;
        latest_status = record {
          measured_rudder_deg = fb.measured_deg;
          actuator_temperature_c = fb.temp_c;
          hardware_faults_active = is_faulted || jammed;
          fault_flags =
              if jammed then active_faults ++ (mechanical_linkage_jam ∷ []) else active_faults;
          linkage_tracking_jammed = jammed;
        };
      }

  -- The `except` handler, or the cache update.
  unfoldable pub use_feedback : Receiver F → Option (Feedback F) → F → F → Receiver F
  use_feedback r none ordered dt = flag_once parsing_payload_exception r
  use_feedback r (some fb) ordered dt = track r fb ordered dt

  -- What `try` does with the fields of a sentence that passed the checksum.
  unfoldable pub process_fields : Receiver F → List Text → F → F → Receiver F
  process_fields r [] ordered dt = flag_once parsing_payload_exception r
  process_fields r (header ∷ parts) ordered dt =
      if not (equal (drop_first header) r.expected_prefix)
      then r
      else use_feedback r (read_feedback (header ∷ parts)) ordered dt

  -- `process_hardware_feedback`; the answer is the new state's `latest_status`.
  unfoldable pub process_hardware_feedback : Receiver F → Text → F → F → Receiver F
  process_hardware_feedback r raw_sentence ordered dt =
      let clean_str = strip raw_sentence in
      if not (validate_checksum clean_str)
      then flag_once line_noise_corruption r
      else process_fields r (fields clean_str) ordered dt
