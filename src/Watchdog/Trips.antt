-- ===== src/Watchdog/Trips.antt =====
-- Which silences trip the supervisors.
use univac.Base.{
  ◌≡◌, refl, sym, ap, ◌∙◌, Bool, true, false, not, none, some, List, [], ◌∷◌, arith, if◌then◌else◌,
  Bool-cases, inl, inr, is_empty,
}
use univac.Text.{Text, equal, member}
use univac.Floats.{Floating}
use univac.Watchdog.{has_key, set_all}
use univac.Watchdog.Registers.{
  value_of, Distinct, has_key-set_present, has_key-set_all, Distinct-set_present, Distinct-set_all,
  selected, member-names_where, value_of-set_present, value_of-set_all,
}
use univac.Watchdog.Threads.{
  ThreadWatchdog, WatchdogEvent, start_watchdog, poke_watchdog, check_round, stop_watchdog, is_late,
  monitor_round, watchdog_step, watch, new_watchdog,
}

module _ {F : Type 0} ⦃fl : Floating F⦄ where
  -- The reference: the time of the last sign of life of a thread, from the events alone. The
  -- flag says whether the monitor runs before them.
  abbrev pub last_sign : Text → Bool → F → List (WatchdogEvent F) → F
  last_sign name monitoring t [] = t
  last_sign name monitoring t (start_watchdog now ∷ l) =
      last_sign name true (if monitoring then t else now) l
  last_sign name monitoring t (poke_watchdog thread now ∷ l) =
      last_sign name monitoring (if equal thread name then now else t) l
  last_sign name monitoring t (check_round now ∷ l) = last_sign name monitoring t l
  last_sign name monitoring t (stop_watchdog ∷ l) = last_sign name false t l

  -- What the register of a supervisor says of a thread.
  pub record Holds (name : Text) (t : F) (s : ThreadWatchdog F) : Type 0 where
    pub there : has_key name s.thread_heartbeats ≡ true
    pub value : value_of name s.thread_heartbeats ≡ some t
    pub distinct : Distinct s.thread_heartbeats

  start-Holds :
      (name : Text) (t now : F) (s : ThreadWatchdog F) (monitoring : Bool)
      → s.is_monitoring ≡ monitoring
      → Holds name t s
      → Holds name (if monitoring then t else now) (watchdog_step (start_watchdog now) s)
  unfolding watchdog_step
  start-Holds name t now s true e h = simp e h
  start-Holds name t now s false e h = simp e (record {
    there = has_key-set_all name now s.thread_heartbeats ∙ h.there;
    value = value_of-set_all name now s.thread_heartbeats ∙ simp h.there;
    distinct = Distinct-set_all now s.thread_heartbeats h.distinct;
  })

  poke-Holds :
      (name thread : Text) (t now : F) (s : ThreadWatchdog F)
      → Holds name t s
      → Holds name
          (if equal thread name then now else t)
          (watchdog_step (poke_watchdog thread now) s)
  unfolding watchdog_step
  poke-Holds name thread t now s h = record {
    there = has_key-set_present thread name now s.thread_heartbeats ∙ h.there;
    value =
        value_of-set_present thread name now s.thread_heartbeats ∙ ground (arith, h.there, h.value);
    distinct = Distinct-set_present thread now s.thread_heartbeats h.distinct;
  }

  check-Holds :
      (name : Text) (t now : F) (s : ThreadWatchdog F)
      → Holds name t s
      → Holds name t (watchdog_step (check_round now) s)
  unfolding watchdog_step monitor_round
  check-Holds name t now s h = elim (Bool-cases s.is_monitoring) [
    | inl e ↦ simp e (record { there = h.there; value = h.value; distinct = h.distinct })
    | inr e ↦ simp e h
  ]

  monitoring_lem :
      (now : F) (thread : Text) (s : ThreadWatchdog F)
      → ((watchdog_step (start_watchdog now) s).is_monitoring ≡ true)
        × ((watchdog_step (poke_watchdog thread now) s).is_monitoring ≡ s.is_monitoring)
        × ((watchdog_step (check_round now) s).is_monitoring ≡ s.is_monitoring)
        × ((watchdog_step stop_watchdog s).is_monitoring ≡ false)
  unfolding watchdog_step monitor_round
  monitoring_lem now thread s = ground arith

  stop-Holds :
      (name : Text) (t : F) (s : ThreadWatchdog F)
      → Holds name t s
      → Holds name t (watchdog_step stop_watchdog s)
  unfolding watchdog_step
  stop-Holds name t s h = record { there = h.there; value = h.value; distinct = h.distinct }

  watch-Holds :
      (name : Text) (l : List (WatchdogEvent F)) (t : F) (monitoring : Bool) (s : ThreadWatchdog F)
      → s.is_monitoring ≡ monitoring
      → Holds name t s
      → Holds name (last_sign name monitoring t l) (watch l s)
  watch-Holds name [] t monitoring s e h = h
  watch-Holds name (start_watchdog now ∷ l) t monitoring s e h =
      watch-Holds name l _ true (watchdog_step (start_watchdog now) s) (monitoring_lem now name s).0
        (start-Holds name t now s monitoring e h)
  watch-Holds name (poke_watchdog thread now ∷ l) t monitoring s e h =
      watch-Holds name l _ monitoring (watchdog_step (poke_watchdog thread now) s)
        ((monitoring_lem now thread s).1 ∙ e) (poke-Holds name thread t now s h)
  watch-Holds name (check_round now ∷ l) t monitoring s e h =
      watch-Holds name l t monitoring (watchdog_step (check_round now) s)
        ((monitoring_lem now name s).2 ∙ e) (check-Holds name t now s h)
  watch-Holds name (stop_watchdog ∷ l) t monitoring s e h =
      watch-Holds name l t false (watchdog_step stop_watchdog s) (monitoring_lem t name s).3
        (stop-Holds name t s h)

  step-timeout :
      (e : WatchdogEvent F) (s : ThreadWatchdog F) → (watchdog_step e s).timeout ≡ s.timeout
  unfolding watchdog_step monitor_round
  step-timeout e s = ground arith

  -- The limit never changes.
  watch-timeout :
      (l : List (WatchdogEvent F)) (s : ThreadWatchdog F) → (watch l s).timeout ≡ s.timeout
  watch-timeout [] s = refl
  watch-timeout (e ∷ l) s = watch-timeout l (watchdog_step e s) ∙ step-timeout e s

  -- At the boot every thread has the same time, as after a start.
  new_watchdog-all :
      (timeout boot : F)
      → set_all boot (new_watchdog timeout boot).thread_heartbeats
        ≡ (new_watchdog timeout boot).thread_heartbeats
  unfolding new_watchdog set_all
  new_watchdog-all timeout boot = refl

  new_watchdog-Distinct :
      (timeout boot : F) → Distinct (new_watchdog timeout boot).thread_heartbeats
  unfolding new_watchdog has_key equal
  new_watchdog-Distinct timeout boot = (refl, (refl, (refl, (refl, tt))))

  new_watchdog-Holds :
      (timeout boot : F) (name : Text)
      → has_key name (new_watchdog timeout boot).thread_heartbeats ≡ true
      → Holds name boot (new_watchdog timeout boot)
  new_watchdog-Holds timeout boot name h = record {
    there = h;
    value =
        ap (value_of name) (sym (new_watchdog-all timeout boot))
        ∙ value_of-set_all name boot (new_watchdog timeout boot).thread_heartbeats
        ∙ ap (λ b. if b then some boot else none) h;
    distinct = new_watchdog-Distinct timeout boot;
  }

  new_watchdog_lem :
      (timeout boot : F)
      → ((new_watchdog timeout boot).is_monitoring ≡ false)
        × ((new_watchdog timeout boot).timeout ≡ timeout)
  unfolding new_watchdog
  new_watchdog_lem timeout boot = (refl, refl)

  monitor_round-flag :
      (now : F) (s : ThreadWatchdog F)
      → (monitor_round now s).system_faulted
        ≡ not (is_empty (monitor_round now s).tripped_subsystems)
  unfolding monitor_round
  monitor_round-flag now s = refl

  monitor_round-tripped :
      (name : Text) (t now : F) (s : ThreadWatchdog F)
      → Holds name t s
      → member name (monitor_round now s).tripped_subsystems ≡ is_late s.timeout now t
  unfolding monitor_round
  monitor_round-tripped name t now s h =
      member-names_where (is_late s.timeout now) name s.thread_heartbeats h.distinct
      ∙ ap (selected (is_late s.timeout now)) h.value

  -- After whatever starts, pokes, rounds and stops, a round of the monitor lists a registered
  -- thread exactly when the seconds since its last sign of life exceed the limit: its last poke,
  -- or a start of the stopped monitor after it, or the boot. The fault flag is up exactly when
  -- a thread is listed.
  pub monitor_round_iff :
      (timeout boot now : F) (name : Text) (l : List (WatchdogEvent F))
      → has_key name (new_watchdog timeout boot).thread_heartbeats ≡ true
      → let s = monitor_round now (watch l (new_watchdog timeout boot)) in
        (member name s.tripped_subsystems ≡ is_late timeout now (last_sign name false boot l))
        × (s.system_faulted ≡ not (is_empty s.tripped_subsystems))
  monitor_round_iff timeout boot now name l h =
      let s = watch l (new_watchdog timeout boot) in
      let holds =
        watch-Holds name l boot false (new_watchdog timeout boot) (new_watchdog_lem timeout boot).0
          (new_watchdog-Holds timeout boot name h) in
      (
        monitor_round-tripped name (last_sign name false boot l) now s holds
            ∙ ap (λ limit. is_late limit now (last_sign name false boot l))
                (watch-timeout l (new_watchdog timeout boot) ∙ (new_watchdog_lem timeout boot).1),
        monitor_round-flag now s,
      )
