-- ===== src/Watchdog/Backlog.antt =====
-- When the supervisor of the ledgers trips.
use univac.Base.{ℕ, ◌≡◌, refl, ap, ◌∙◌, true, ◌&&◌, ◌||◌, some, List, [], ◌∷◌, arith, ltb}
use univac.Text.{Text, equal, member, strip, upper}
use univac.Text.Laws.{equal_self}
use univac.Floats.{Floating}
use univac.Watchdog.{has_key}
use univac.Watchdog.Registers.{
  value_of, Distinct, Distinct-set_present, Distinct-set_all, selected, member-names_where,
  value_of-set_present,
}
use univac.Watchdog.Ledgers.{
  LedgerWatchdog, LedgerEvent, start_ledger_watchdog, log_write_success, integrity_round,
  stop_ledger_watchdog, fresh, new_ledger_watchdog, is_stalled, checker_round, ledger_step,
  watch_ledgers,
}

module _ {F : Type 0} ⦃fl : Floating F⦄ where
  step-Distinct :
      (e : LedgerEvent F) (s : LedgerWatchdog F)
      → Distinct s.ledger_heartbeats
      → Distinct (ledger_step e s).ledger_heartbeats
  unfolding ledger_step checker_round
  step-Distinct (start_ledger_watchdog now) s h =
      ground (arith, Distinct-set_all (fresh now) s.ledger_heartbeats h)
  step-Distinct (log_write_success name size now) s h =
      Distinct-set_present (strip (upper name)) _ s.ledger_heartbeats h
  step-Distinct (integrity_round now) s h = ground arith
  step-Distinct stop_ledger_watchdog s h = h

  watch_ledgers-Distinct :
      (l : List (LedgerEvent F)) (s : LedgerWatchdog F)
      → Distinct s.ledger_heartbeats
      → Distinct (watch_ledgers l s).ledger_heartbeats
  watch_ledgers-Distinct [] s h = h
  watch_ledgers-Distinct (e ∷ l) s h =
      watch_ledgers-Distinct l (ledger_step e s) (step-Distinct e s h)

  new_ledger_watchdog-Distinct :
      (timeout boot : F) → Distinct (new_ledger_watchdog timeout boot).ledger_heartbeats
  unfolding new_ledger_watchdog has_key equal
  new_ledger_watchdog-Distinct timeout boot = (refl, (refl, (refl, tt)))

  reported-value :
      (name : Text) (size : ℕ) (now : F) (s : LedgerWatchdog F)
      → has_key (strip (upper name)) s.ledger_heartbeats ≡ true
      → value_of
          (strip (upper name))
          (ledger_step (log_write_success name size now) s).ledger_heartbeats
        ≡ some (record { last_write_time = now; queue_depth = size })
  unfolding ledger_step
  reported-value name size now s h =
      value_of-set_present (strip (upper name)) (strip (upper name)) _ s.ledger_heartbeats
      ∙ simp (equal_self (strip (upper name)), h)

  checker_round-tripped :
      (name : Text) (now : F) (s : LedgerWatchdog F)
      → Distinct s.ledger_heartbeats
      → member name (checker_round now s).tripped_ledgers
        ≡ selected (is_stalled s.timeout now) (value_of name s.ledger_heartbeats)
  unfolding checker_round
  checker_round-tripped name now s h =
      member-names_where (is_stalled s.timeout now) name s.ledger_heartbeats h

  report-timeout :
      (name : Text) (size : ℕ) (now : F) (s : LedgerWatchdog F)
      → (ledger_step (log_write_success name size now) s).timeout ≡ s.timeout
  unfolding ledger_step
  report-timeout name size now s = refl

  -- After any run, a logger reports a write and the size of its queue at that moment, its name in
  -- either case and with blanks around it, of a ledger that is registered. A round of the checker
  -- behind this report then lists the ledger exactly when the reported size is more than 500, or it
  -- is not 0 and the seconds since the report exceed the limit. What has been queued since the report
  -- does not count: where the last report said 0, the ledger is not listed, however long it is silent.
  pub checker_round_iff :
      (timeout boot written now : F) (name : Text) (size : ℕ) (l : List (LedgerEvent F))
      → has_key
          (strip (upper name))
          (watch_ledgers l (new_ledger_watchdog timeout boot)).ledger_heartbeats
        ≡ true
      → let s = watch_ledgers l (new_ledger_watchdog timeout boot) in
        member
          (strip (upper name))
          (checker_round now (ledger_step (log_write_success name size written) s)).tripped_ledgers
        ≡ (fl.lt s.timeout (fl.sub now written) && ltb 0 size || ltb 500 size)
  checker_round_iff timeout boot written now name size l h =
      let s = watch_ledgers l (new_ledger_watchdog timeout boot) in
      let after = ledger_step (log_write_success name size written) s in
      let distinct =
        watch_ledgers-Distinct l (new_ledger_watchdog timeout boot)
          (new_ledger_watchdog-Distinct timeout boot) in
      checker_round-tripped (strip (upper name)) now after
        (step-Distinct (log_write_success name size written) s distinct)
      ∙ ap (selected (is_stalled after.timeout now)) (reported-value name size written s h)
      ∙ ap (λ limit. fl.lt limit (fl.sub now written) && ltb 0 size || ltb 500 size)
          (report-timeout name size written s)
