-- ===== src/Watchdog/Threads.antt =====
-- network_layer/hardware_watchdog.py
use univac.Base.{Bool, true, false, not, List, [], ◌∷◌, is_empty, if◌then◌else◌}
use univac.Text.{Text, codes}
use univac.Floats.{Floating}
use univac.Watchdog.{Register, set_present, set_all, names_where}

pub record ThreadWatchdog (F : Type 0) : Type 0 where
  pub timeout : F
  pub is_monitoring : Bool
  pub thread_heartbeats : Register F
  pub system_faulted : Bool
  pub tripped_subsystems : List Text

pub data WatchdogEvent (F : Type 0) : Type 0 where
  start_watchdog : F → WatchdogEvent F
  poke_watchdog : Text → F → WatchdogEvent F
  -- one round of the monitor's loop
  check_round : F → WatchdogEvent F
  stop_watchdog : WatchdogEvent F

module _ {F : Type 0} ⦃fl : Floating F⦄ where
  unfoldable pub new_watchdog : F → F → ThreadWatchdog F
  new_watchdog critical_timeout_sec now = record {
    timeout = critical_timeout_sec;
    is_monitoring = false;
    thread_heartbeats =
        (codes "NMEA_SERIAL_IN", now)
        ∷ (codes "WEAPON_BUS_IN", now)
        ∷ (codes "TCP_COMMAND_IN", now)
        ∷ (codes "MAIN_CORE_MATH", now)
        ∷ [];
    system_faulted = false;
    tripped_subsystems = [];
  }

  -- current_time - last_heartbeat > self.timeout
  abbrev pub is_late : F → F → F → Bool
  is_late timeout now last_heartbeat = fl.lt timeout (fl.sub now last_heartbeat)

  -- The faults of a round, and the flags they set.
  unfoldable pub monitor_round : F → ThreadWatchdog F → ThreadWatchdog F
  monitor_round now s =
      let local_faults = names_where (is_late s.timeout now) s.thread_heartbeats in
      record s { system_faulted = not (is_empty local_faults); tripped_subsystems = local_faults }

  unfoldable pub watchdog_step : WatchdogEvent F → ThreadWatchdog F → ThreadWatchdog F
  watchdog_step (start_watchdog boot_now) s = if s.is_monitoring then s else record s {
    is_monitoring = true;
    thread_heartbeats = set_all boot_now s.thread_heartbeats;
  }
  watchdog_step (poke_watchdog thread_name now) s = record s {
    thread_heartbeats = set_present thread_name now s.thread_heartbeats;
  }
  watchdog_step (check_round now) s = if s.is_monitoring then monitor_round now s else s
  watchdog_step stop_watchdog s = record s { is_monitoring = false }

  abbrev pub watch : List (WatchdogEvent F) → ThreadWatchdog F → ThreadWatchdog F
  watch [] s = s
  watch (e ∷ l) s = watch l (watchdog_step e s)

  -- The `delay_..._sec` entries of the diagnostics.
  unfoldable pub delays : F → Register F → List F
  delays current_time [] = []
  delays current_time ((name, last_hb) ∷ d) =
      fl.round 3 (fl.sub current_time last_hb) ∷ delays current_time d
