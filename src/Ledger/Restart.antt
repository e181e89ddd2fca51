-- ===== src/Ledger/Restart.antt =====
-- What a second logger process of the same day does to the file, and what the unbound watchdog does.
use univac.Base.{
  ℕ, suc, ◌+◌, ◌≡◌, ◌≢◌, refl, sym, ap, ◌∙◌, Bool, true, false, none, some, List, [], ◌∷◌, ◌++◌,
  arith, length, inl, inr, Bool-cases,
}
use univac.Text.{Text, codes, equal}
use univac.Text.Laws.{equal_iff}
use univac.Ledger.{
  Row, genesis_hash, Logger, LoggerSetup, LogEvent, start_services, capture, write_next,
  stop_services, take_beside, write_beside, final_row, new_logger, initialize_log_file, write_item,
  worker_round, step, run,
}
use univac.Ledger.Verify.{tamper_detected, index_of, check_row, verify_rows, verify_file}
use univac.Ledger.Chain.{rows_for, last_hash, verify_rows-rows_for, final_row-cells}

pub differ_lem : (s t : Text) → s ≢ t → equal s t ≡ false
differ_lem s t ne = elim (Bool-cases (equal s t)) [
  | inl same ↦ absurd (ne ((equal_iff s t).0 same))
  | inr other ↦ other
]

module _ {A : Type 0} (setup : LoggerSetup A) where
  -- A row that continues another hash than the one before it is reported at its place.
  pub verify_rows-broken_link :
      (n : ℕ) (widths : (a : A) → length (setup.cells a) ≡ n) (a : A) (recorded tracking : Text)
      (row_idx : ℕ) (more : List Row)
      → recorded ≢ tracking
      → verify_rows setup.sha256 n (suc n) tracking row_idx (final_row setup a recorded ∷ more)
        ≡ tamper_detected (row_idx + 1)
  unfolding verify_rows check_row
  verify_rows-broken_link n widths a recorded tracking row_idx more ne =
      ground (arith, widths a, final_row-cells setup a recorded, differ_lem recorded tracking ne)

  -- The file after a second logger opened the day's file, captured one snapshot and wrote it.
  abbrev pub second_session : List Row → Bool → A → Logger A
  second_session rows disk_ok b =
      run setup (start_services disk_ok ∷ capture b ∷ write_next true ∷ []) (new_logger (some rows))

  second_session-file :
      (rows : List Row) (disk_ok : Bool) (b : A)
      → (second_session rows disk_ok b).file ≡ some (rows ++ (final_row setup b genesis_hash ∷ []))
  unfolding step initialize_log_file worker_round write_item new_logger
  second_session-file rows disk_ok b = ground arith

  -- In a ledger whose two hash columns stand behind the cells: a first session wrote at
  -- least one row, and a new process, whose logger starts its chain at the anchor again,
  -- appends one to the same file. The boot suite then reports that row as tampered with,
  -- though nobody edited the file; the first session's last hash is taken to be another than
  -- the 64 zeros.
  pub second_session_tampers :
      (n : ℕ) (widths : (a : A) → length (setup.cells a) ≡ n)
      → index_of (codes "current_row_sha256") setup.csv_headers ≡ some n
      → index_of (codes "previous_row_sha256") setup.csv_headers ≡ some (suc n)
      → (a : A) (l : List A) (b : A) (disk_ok : Bool)
      → last_hash setup genesis_hash (a ∷ l) ≢ genesis_hash
      → (rows : List Row) × ((second_session
            (setup.csv_headers ∷ rows_for setup genesis_hash (a ∷ l))
            disk_ok
            b).file
          ≡ some rows)
        × (verify_file setup.sha256 rows ≡ tamper_detected (length (a ∷ l) + 1))
  unfolding verify_file
  second_session_tampers n widths hi hp a l b disk_ok ne =
      let rows = setup.csv_headers ∷ rows_for setup genesis_hash (a ∷ l) in
      (
        rows ++ (final_row setup b genesis_hash ∷ []),
        second_session-file rows disk_ok b,
        rw (hi, hp)
            (verify_rows-rows_for setup n widths (a ∷ l) genesis_hash 0
                (final_row setup b genesis_hash ∷ [])
              ∙ verify_rows-broken_link n widths b genesis_hash
                  (last_hash setup genesis_hash (a ∷ l)) (0 + length (a ∷ l)) [] (λ e. ne (sym e))
              ∙ ap tamper_detected (omega arith)),
      )

  abbrev pub NoStart : List (LogEvent A) → Type 0
  NoStart [] = Unit
  NoStart (start_services disk_ok ∷ l) = ⊥
  NoStart (_ ∷ l) = NoStart l

  dead_keeps :
      (l : List (LogEvent A)) (s : Logger A)
      → NoStart l
      → s.worker_alive ≡ false
      → s.overlapping ≡ false
      → (run setup l s).file ≡ s.file
  unfolding step
  dead_keeps [] s h dead single = refl
  dead_keeps (start_services disk_ok ∷ l) s h dead single = absurd h
  dead_keeps (capture a ∷ l) s h dead single =
      dead_keeps l (step setup (capture a) s) h (ground arith) (ground arith) ∙ ground arith
  dead_keeps (write_next disk_ok ∷ l) s h dead single =
      dead_keeps l (step setup (write_next disk_ok) s) h (ground arith) (ground arith)
      ∙ ground arith
  dead_keeps (stop_services ∷ l) s h dead single =
      dead_keeps l (step setup stop_services s) h dead single
  dead_keeps (take_beside ∷ l) s h dead single = simp single (dead_keeps l s h dead single)
  dead_keeps (write_beside ok i k r left ∷ l) s h dead single =
      simp single (dead_keeps l s h dead single)

  -- As the modules stand, with no `watchdog` in them: a logger that creates the day's file writes
  -- the header and dies of it. Whatever is captured until the services are started again, no row
  -- reaches the file.
  pub unbound_writes_no_row :
      (l : List (LogEvent A))
      → setup.watchdog_bound ≡ false
      → NoStart l
      → (run setup (start_services true ∷ l) (new_logger none)).file ≡ some (setup.csv_headers ∷ [])
  unbound_writes_no_row l unbound h =
      let started = step setup (start_services true) (new_logger none) in
      dead_keeps l started h (unfold step initialize_log_file new_logger in simp unbound)
        (unfold step initialize_log_file new_logger in refl)
      ∙ (unfold step initialize_log_file new_logger in refl)
