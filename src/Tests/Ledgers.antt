-- ===== src/Tests/Ledgers.antt =====
-- Ledgers of the flag logger (Ledger), with a digest that is told apart from the anchor by its first
-- character.
use univac.Base.{
  inl, inr, ℕ, ◌≡◌, refl, Bool, true, false, none, some, List, [], ◌∷◌, ◌++◌, get_elem?, or_default,
  ap, arith,
}
use univac.Base.Int.{ℤ, pos}
use univac.Text.{Text, codes, equal, starts_with, ends_with, join}
use univac.Floats.Milli.{milli, print_fixed}
use univac.Ledger.{
  Row, Logger, genesis_hash, LoggerSetup, start_services, capture, write_next, stop_services,
  new_logger, LogEvent, step, initialize_log_file, worker_round, write_item, run, row_hash,
  data_string,
}
use univac.Ledger.Flag.{FlagSnapshot, flag_headers, flag_cells}
use univac.Ledger.Mission.{mission_headers}
use univac.Ledger.Verify.{
  secure, tamper_detected, LogFile, index_of, verify_file, latest_file, is_ledger_file,
  execute_full_suite,
}
use univac.Ledger.Chain.{rows_for, run-secure}
use univac.Ledger.Restart.{second_session, second_session_tampers}
use univac.Ledger.Shore.{ShoreSnapshot, shore_snapshot}
use univac.Ledger.Tamper.{edited_row, edited_row_detected, deleted_row_detected}
use univac.Ledger.Drain.{Drained, rounds, stop_services-drains}
use univac.Ledger.Boot.{execute_full_suite_iff, mission_log_blocks_boot}

abbrev digest : Text → Text
digest t = b'h' ∷ t

abbrev flag_setup : Bool → LoggerSetup (FlagSnapshot ℤ)
flag_setup bound = record {
  sha256 = digest;
  cells = flag_cells;
  csv_headers = flag_headers;
  watchdog_bound = bound;
}

abbrev hoisted : ℕ → FlagSnapshot ℤ
hoisted n = record {
  timestamp = pos n;
  state = codes "COMBAT";
  motor_pos = pos 100_000;
  motor_power = 1;
  brake_lock = 0;
  msg = [];
}

abbrev character_five : Text → ℕ
character_five t = or_default (get_elem? t 5) 0

-- A session that is stopped and drained, and one that follows it.
abbrev two_sessions : List (LogEvent (FlagSnapshot ℤ))
two_sessions =
    capture (hoisted 1)
    ∷ write_next true
    ∷ stop_services
    ∷ write_next true
    ∷ start_services true
    ∷ capture (hoisted 2)
    ∷ write_next true
    ∷ []

run-secure_example :
    (rows : List Row) × ((run
        (flag_setup true)
        (start_services true ∷ two_sessions)
        (new_logger none)).file
      ≡ some rows)
    × (verify_file digest rows ≡ secure)
unfolding index_of equal step initialize_log_file worker_round write_item new_logger
run-secure_example = run-secure (flag_setup true) refl 6 (λ a. refl) refl refl two_sessions refl

second_session_tampers_example :
    (rows : List Row) × ((second_session
        (flag_setup true)
        (flag_headers ∷ rows_for (flag_setup true) genesis_hash (hoisted 1 ∷ []))
        true
        (hoisted 2)).file
      ≡ some rows)
    × (verify_file digest rows ≡ tamper_detected 2)
unfolding index_of equal genesis_hash row_hash
second_session_tampers_example =
    second_session_tampers (flag_setup true) 6 (λ a. refl) refl refl (hoisted 1) [] (hoisted 2) true
      (λ e. cc)

edited_row_detected_example :
    verify_file digest (
      flag_headers
      ∷ ([] ++ (edited_row (flag_setup true) (hoisted 1) (hoisted 2) genesis_hash ∷ [])))
    ≡ tamper_detected 1
unfolding index_of equal row_hash data_string join print_fixed
edited_row_detected_example =
    edited_row_detected (flag_setup true) 6 (λ a. refl) refl refl [] (hoisted 1) (hoisted 2) []
      (λ e. let other : 49 ≡ 50 = ap character_five e in omega arith)

deleted_row_detected_example :
    verify_file digest (
      flag_headers
      ∷ ([]
          ++ rows_for
              (flag_setup true)
              (row_hash (flag_setup true) (hoisted 1) genesis_hash)
              (hoisted 2 ∷ [])))
    ≡ tamper_detected 1
unfolding index_of equal genesis_hash row_hash
deleted_row_detected_example =
    deleted_row_detected (flag_setup true) 6 (λ a. refl) refl refl [] (hoisted 1) (hoisted 2) []
      (λ e. cc)

abbrev mission_file : LogFile
mission_file = record {
  name = codes "mission_telemetry_1.csv";
  content = some (mission_headers ∷ []);
}

mission_log_blocks_boot_example : execute_full_suite digest (some (mission_file ∷ [])) ≡ false
unfolding latest_file is_ledger_file starts_with ends_with
mission_log_blocks_boot_example =
    mission_log_blocks_boot digest (mission_file ∷ []) mission_file [] refl refl

-- Two days of the flag ledger, of which the first is damaged.
abbrev flag_files : List LogFile
flag_files =
    record { name = codes "flag_halyard_audit_1.csv"; content = none }
    ∷ record { name = codes "flag_halyard_audit_2.csv"; content = some (flag_headers ∷ []) }
    ∷ []

execute_full_suite_iff_example : execute_full_suite digest (some flag_files) ≡ true
unfolding starts_with ends_with equal index_of
execute_full_suite_iff_example = (execute_full_suite_iff digest flag_files (refl, (refl, tt))).1 (
  inr (_, (inr (inl refl), refl, refl), _, refl, (6, 7, refl, refl, tt)),
  inl refl,
  inl refl,
  inl refl,
)

abbrev idle_shore : ShoreSnapshot ℤ
idle_shore = shore_snapshot (pos 5) none none

-- A running logger with two snapshots that wait.
abbrev waiting : Logger (FlagSnapshot ℤ)
waiting = record {
  is_logging = true;
  log_queue = hoisted 1 ∷ hoisted 2 ∷ [];
  previous_row_hash = genesis_hash;
  worker_alive = true;
  overlapping = false;
  in_hand = [];
  file = some (flag_headers ∷ []);
}

stop_services-drains_example :
    Drained
      (flag_setup true)
      refl
      ((flag_headers ∷ []) ++ rows_for (flag_setup true) genesis_hash (hoisted 1 ∷ hoisted 2 ∷ []))
      (run (flag_setup true) (stop_services ∷ rounds 3) waiting)
stop_services-drains_example =
    stop_services-drains (flag_setup true) refl waiting (flag_headers ∷ []) refl refl refl
