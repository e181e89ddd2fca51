-- ===== src/Watchdog/Ledgers.antt =====
-- network_layer/multi_ledger_watchdog.py
use univac.Base.{ℕ, Bool, true, false, not, ◌&&◌, ◌||◌, List, [], ◌∷◌, ltb, is_empty, if◌then◌else◌}
use univac.Text.{Text, codes, strip, upper}
use univac.Floats.{Floating}
use univac.Watchdog.{Register, set_present, set_all, names_where}

-- The last write and the queue of one ledger: the two dictionaries have the same keys.
pub record LedgerBeat (F : Type 0) : Type 0 where
  pub last_write_time : F
  pub queue_depth : ℕ

pub record LedgerWatchdog (F : Type 0) : Type 0 where
  pub timeout : F
  pub is_monitoring : Bool
  pub ledger_heartbeats : Register (LedgerBeat F)
  pub system_faulted : Bool
  pub tripped_ledgers : List Text

pub data LedgerEvent (F : Type 0) : Type 0 where
  start_ledger_watchdog : F → LedgerEvent F
  log_write_success : Text → ℕ → F → LedgerEvent F
  -- one round of the checker's loop
  integrity_round : F → LedgerEvent F
  stop_ledger_watchdog : LedgerEvent F

module _ {F : Type 0} where
  abbrev pub fresh : F → LedgerBeat F
  fresh now = record { last_write_time = now; queue_depth = 0 }

  unfoldable pub new_ledger_watchdog : F → F → LedgerWatchdog F
  new_ledger_watchdog write_timeout_sec now = record {
    timeout = write_timeout_sec;
    is_monitoring = false;
    ledger_heartbeats =
        (codes "FLAG_HALYARD_AUDIT", fresh now)
        ∷ (codes "MARPOL_BILGE_AUDIT", fresh now)
        ∷ (codes "MISSION_TELEMETRY", fresh now)
        ∷ [];
    system_faulted = false;
    tripped_ledgers = [];
  }

module _ {F : Type 0} ⦃fl : Floating F⦄ where
  -- (time_delta > self.timeout and queue_depth > 0) or (queue_depth > 500)
  abbrev pub is_stalled : F → F → LedgerBeat F → Bool
  is_stalled timeout now b =
      fl.lt timeout (fl.sub now b.last_write_time) && ltb 0 b.queue_depth || ltb 500 b.queue_depth

  unfoldable pub checker_round : F → LedgerWatchdog F → LedgerWatchdog F
  checker_round now s =
      let local_faults = names_where (is_stalled s.timeout now) s.ledger_heartbeats in
      record s { system_faulted = not (is_empty local_faults); tripped_ledgers = local_faults }

  unfoldable pub ledger_step : LedgerEvent F → LedgerWatchdog F → LedgerWatchdog F
  ledger_step (start_ledger_watchdog boot_now) s = if s.is_monitoring then s else record s {
    is_monitoring = true;
    ledger_heartbeats = set_all (fresh boot_now) s.ledger_heartbeats;
  }
  ledger_step (log_write_success ledger_name active_queue_size now) s =
      let beat : LedgerBeat F = record { last_write_time = now; queue_depth = active_queue_size } in
      record s {
        ledger_heartbeats = set_present (strip (upper ledger_name)) beat s.ledger_heartbeats;
      }
  ledger_step (integrity_round now) s = if s.is_monitoring then checker_round now s else s
  ledger_step stop_ledger_watchdog s = record s { is_monitoring = false }

  abbrev pub watch_ledgers : List (LedgerEvent F) → LedgerWatchdog F → LedgerWatchdog F
  watch_ledgers [] s = s
  watch_ledgers (e ∷ l) s = watch_ledgers l (ledger_step e s)
