-- ===== src/Ledger/Flag.antt =====
-- The snapshot of flag_fault_logger.py.
use univac.Base.{ℕ, Option, List, [], ◌∷◌, or_default}
use univac.Text.{Text, codes}
use univac.Text.Decimal.{decimal}
use univac.Floats.{Floating}
use univac.Ledger.{Row}

-- The keys of the flag changer's answer that are logged.
pub record FlagCommands (F : Type 0) : Type 0 where
  pub active_flag_state_string : Option Text
  pub commanded_halyard_motor_position_pct : Option F
  pub actuator_motor_power_relay : Option ℕ
  pub actuator_mechanical_lock_pin : Option ℕ
  pub telemetry_flag_log_message : Option Text

pub record FlagSnapshot (F : Type 0) : Type 0 where
  pub timestamp : F
  pub state : Text
  pub motor_pos : F
  pub motor_power : ℕ
  pub brake_lock : ℕ
  pub msg : Text

abbrev pub flag_headers : Row
flag_headers =
    codes "timestamp_epoch"
    ∷ codes "flag_state_string"
    ∷ codes "motor_position_pct"
    ∷ codes "motor_power_relay_bit"
    ∷ codes "brake_pin_lock_bit"
    ∷ codes "log_message"
    ∷ codes "current_row_sha256"
    ∷ codes "previous_row_sha256"
    ∷ []

module _ {F : Type 0} ⦃fl : Floating F⦄ where
  -- The dictionary that `capture_flag_event_snapshot` queues.
  unfoldable pub flag_snapshot : F → FlagCommands F → FlagSnapshot F
  flag_snapshot now c = record {
    timestamp = now;
    state = or_default c.active_flag_state_string (codes "UNKNOWN");
    motor_pos = or_default c.commanded_halyard_motor_position_pct (fl.lit 0 1);
    motor_power = or_default c.actuator_motor_power_relay 0;
    brake_lock = or_default c.actuator_mechanical_lock_pin 1;
    msg = or_default c.telemetry_flag_log_message [];
  }

  -- The cells in front of the two hashes.
  abbrev pub flag_cells : FlagSnapshot F → List Text
  flag_cells d =
      fl.repr d.timestamp
      ∷ d.state
      ∷ fl.repr d.motor_pos
      ∷ decimal d.motor_power
      ∷ decimal d.brake_lock
      ∷ d.msg
      ∷ []
