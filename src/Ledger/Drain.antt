-- ===== src/Ledger/Drain.antt =====
-- The writer thread after the stop: what still waits is written, and then the thread ends.
use univac.Base.{
  ℕ, zero, suc, ◌≡◌, refl, ap, ◌∙◌, true, false, some, List, [], ◌∷◌, ◌++◌, length, arith,
}
use mathlib.Core.List.{append_assoc, append-nil}
use univac.Ledger.{
  Row, Logger, LoggerSetup, LogEvent, write_next, stop_services, final_row, row_hash, write_item,
  worker_round, step, run,
}
use univac.Ledger.Chain.{rows_for}

-- So many rounds of the writer with a disk that works.
abbrev pub rounds : {A : Type 0} → ℕ → List (LogEvent A)
rounds zero = []
rounds (suc n) = write_next true ∷ rounds n

module _ {A : Type 0} (setup : LoggerSetup A) (bound : setup.watchdog_bound ≡ true) where
  -- The thread has ended, nothing waits, and the file has grown by these rows.
  abbrev pub Drained : List Row → Logger A → Type 0
  Drained rows s = (s.worker_alive ≡ false) × (s.log_queue ≡ []) × (s.file ≡ some rows)

  last_round :
      (rows : List Row) (s : Logger A)
      → s.log_queue ≡ []
      → s.worker_alive ≡ true
      → s.overlapping ≡ false
      → s.is_logging ≡ false
      → s.file ≡ some rows
      → Drained (rows ++ []) (step setup (write_next true) s)
  unfolding step worker_round
  last_round rows s q w o i f = ground (arith, append-nil rows)

  one_round :
      (a : A) (queue : List A) (rows : List Row) (s : Logger A)
      → s.log_queue ≡ a ∷ queue
      → s.worker_alive ≡ true
      → s.overlapping ≡ false
      → s.is_logging ≡ false
      → s.file ≡ some rows
      → let s' = step setup (write_next true) s in
        (s'.log_queue ≡ queue)
        × (s'.worker_alive ≡ true)
        × (s'.overlapping ≡ false)
        × (s'.is_logging ≡ false)
        × (s'.file ≡ some (rows ++ (final_row setup a s.previous_row_hash ∷ [])))
        × (s'.previous_row_hash ≡ row_hash setup a s.previous_row_hash)
  unfolding step worker_round write_item
  one_round a queue rows s q w o i f = ground arith

  drain :
      (queue : List A) (rows : List Row) (s : Logger A)
      → s.log_queue ≡ queue
      → s.worker_alive ≡ true
      → s.overlapping ≡ false
      → s.is_logging ≡ false
      → s.file ≡ some rows
      → Drained
          (rows ++ rows_for setup s.previous_row_hash queue)
          (run setup (rounds (suc (length queue))) s)
  drain [] rows s q w o i f = last_round rows s q w o i f
  drain (a ∷ queue) rows s q w o i f =
      let s' = step setup (write_next true) s in
      let (q', w', o', i', f', h') = one_round a queue rows s q w o i f in
      let row = final_row setup a s.previous_row_hash in
      let (dead, empty, file) = drain queue (rows ++ (row ∷ [])) s' q' w' o' i' f' in
      (
        dead,
        empty,
        file
            ∙ ap (λ h. some ((rows ++ (row ∷ [])) ++ rows_for setup h queue)) h'
            ∙ ap some (
                append_assoc rows (row ∷ [])
                  (rows_for setup (row_hash setup a s.previous_row_hash) queue)),
      )

  -- With the watchdog bound, one writer and a disk that works: from the stop of the services on, as many rounds
  -- as snapshots wait, and one more, write all of them behind the file, in order and chained to the
  -- last hash, leave the queue empty, and end the writer thread.
  pub stop_services-drains :
      (s : Logger A) (rows : List Row)
      → s.worker_alive ≡ true
      → s.overlapping ≡ false
      → s.file ≡ some rows
      → Drained
          (rows ++ rows_for setup s.previous_row_hash s.log_queue)
          (run setup (stop_services ∷ rounds (suc (length s.log_queue))) s)
  unfolding step
  stop_services-drains s rows w o f =
      drain s.log_queue rows (record s { is_logging = false }) refl w o refl f
