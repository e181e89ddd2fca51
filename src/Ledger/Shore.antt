-- ===== src/Ledger/Shore.antt =====
-- network_layer/shore_audit_logger.py: the third chained logger. Its writer calls no watchdog, so it
-- is the shared model with nothing unbound. The JSON file of the live state, which is written
-- behind the row and read by no part of the chain, is not modelled.
use univac.Base.{false, ℕ, ◌≡◌, refl, true, Option, none, some, List, [], ◌∷◌, or_default}
use univac.Text.{Text, codes, equal}
use univac.Text.Decimal.{decimal}
use univac.Floats.{Floating}
use univac.Ledger.{Row, LoggerSetup, LogEvent, start_services, new_logger, run}
use univac.Ledger.Verify.{secure, index_of, verify_file}
use univac.Ledger.Chain.{run-secure}

-- The keys of `dispatched_actuator_cache`.
pub record ActuatorCache (F : Type 0) : Type 0 where
  pub crane_hoist_power_pct : Option F
  pub crane_hook_lock_solenoid : Option ℕ
  pub blast_door_actuator_state : Option ℕ
  pub substation_breaker_relay : Option ℕ
  pub sump_pump_override_relay : Option ℕ
  pub hvac_dehumidifier_setpoint : Option F
  pub climate_heating_valve_open : Option ℕ

pub record ShoreSnapshot (F : Type 0) : Type 0 where
  pub timestamp : F
  pub mode : Text
  pub crane_pwr : F
  pub hook_locked : ℕ
  pub door_state : ℕ
  pub breaker_state : ℕ
  pub sump_state : ℕ
  pub hvac_humidity : F
  pub heat_valve : ℕ

abbrev pub shore_headers : Row
shore_headers =
    codes "timestamp_epoch"
    ∷ codes "authority_mode"
    ∷ codes "crane_power_pct"
    ∷ codes "crane_hook_locked"
    ∷ codes "blast_door_state"
    ∷ codes "breaker_relay_state"
    ∷ codes "sump_pump_state"
    ∷ codes "hvac_humidity_setpoint"
    ∷ codes "heating_valve_open"
    ∷ codes "current_row_sha256"
    ∷ codes "previous_row_sha256"
    ∷ []

module _ {F : Type 0} ⦃fl : Floating F⦄ where
  abbrev pub no_actuators : ActuatorCache F
  no_actuators = record {
    crane_hoist_power_pct = none;
    crane_hook_lock_solenoid = none;
    blast_door_actuator_state = none;
    substation_breaker_relay = none;
    sump_pump_override_relay = none;
    hvac_dehumidifier_setpoint = none;
    climate_heating_valve_open = none;
  }

  -- The dictionary that `capture_facility_state_snapshot` queues, from the mode and the cache.
  unfoldable pub shore_snapshot : F → Option Text → Option (ActuatorCache F) → ShoreSnapshot F
  shore_snapshot now active_authority_mode dispatched_actuator_cache =
      let act_map : ActuatorCache F = or_default dispatched_actuator_cache no_actuators in
      record {
        timestamp = now;
        mode = or_default active_authority_mode (codes "UNKNOWN");
        crane_pwr = or_default act_map.crane_hoist_power_pct (fl.lit 0 1);
        hook_locked = or_default act_map.crane_hook_lock_solenoid 1;
        door_state = or_default act_map.blast_door_actuator_state 0;
        breaker_state = or_default act_map.substation_breaker_relay 1;
        sump_state = or_default act_map.sump_pump_override_relay 0;
        hvac_humidity = or_default act_map.hvac_dehumidifier_setpoint (fl.lit 450 1);
        heat_valve = or_default act_map.climate_heating_valve_open 0;
      }

  -- The cells in front of the two hashes.
  abbrev pub shore_cells : ShoreSnapshot F → List Text
  shore_cells d =
      fl.repr d.timestamp
      ∷ d.mode
      ∷ fl.repr d.crane_pwr
      ∷ decimal d.hook_locked
      ∷ decimal d.door_state
      ∷ decimal d.breaker_state
      ∷ decimal d.sump_state
      ∷ fl.repr d.hvac_humidity
      ∷ decimal d.heat_valve
      ∷ []

  abbrev pub shore_setup : (Text → Text) → LoggerSetup (ShoreSnapshot F)
  shore_setup sha256 = record {
    sha256 = sha256;
    cells = shore_cells;
    csv_headers = shore_headers;
    watchdog_bound = true;
  }

  -- A shore ledger that a logger of the day created passes the boot suite, whatever happened to
  -- the logger behind the header: captures, writes, failed disk accesses, stops and restarts of
  -- the services, as long as no start finds the former writer alive.
  pub shore_ledger_secure :
      (sha256 : Text → Text) (l : List (LogEvent (ShoreSnapshot F)))
      → (run (shore_setup sha256) (start_services true ∷ l) (new_logger none)).overlapping ≡ false
      → (rows : List Row) × ((run
            (shore_setup sha256)
            (start_services true ∷ l)
            (new_logger none)).file
          ≡ some rows)
        × (verify_file sha256 rows ≡ secure)
  unfolding index_of equal
  shore_ledger_secure sha256 l single =
      run-secure (shore_setup sha256) refl 9 (λ a. refl) refl refl l single
