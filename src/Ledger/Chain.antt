-- ===== src/Ledger/Chain.antt =====
-- What a logger with a working watchdog writes is a chain, which the boot suite accepts.
use univac.Base.{
  Option, ℕ, suc, ◌+◌, ◌≡◌, refl, sym, ap, ◌∙◌, Bool, true, false, none, some, List, [], ◌∷◌, ◌++◌,
  arith, length, get_elem?, take, is_empty, inl, inr, Bool-cases, ◌||◌,
}
use mathlib.Core.List.{append-nil}
use mathlib.Core.Path.{subst}
use native.Mathlib.Nat.{add-zero}
use univac.Text.{Text, codes}
use univac.Text.Laws.{equal_self}
use univac.Ledger.{
  Row, genesis_hash, Logger, LoggerSetup, LogEvent, start_services, capture, write_next,
  stop_services, take_beside, write_beside, keep_other, row_hash, final_row, new_logger,
  initialize_log_file, write_item, worker_round, step, run, take_one, write_taken,
}
use univac.Ledger.Verify.{secure, index_of, recalculated_hash, verify_rows, verify_file}

module _ {ℓ} {A : Type ℓ} where
  pub take-append : (xs ys : List A) → take (length xs) (xs ++ ys) ≡ xs
  take-append [] ys = refl
  take-append (x ∷ xs) ys = ap (◌∷◌ x) (take-append xs ys)

  pub get_elem?-append :
      (xs : List A) (y z : A) → get_elem? (xs ++ (y ∷ z ∷ [])) (length xs) ≡ some y
  get_elem?-append [] y z = refl
  get_elem?-append (x ∷ xs) y z = get_elem?-append xs y z

  pub get_elem?-append_next :
      (xs : List A) (y z : A) → get_elem? (xs ++ (y ∷ z ∷ [])) (suc (length xs)) ≡ some z
  get_elem?-append_next [] y z = refl
  get_elem?-append_next (x ∷ xs) y z = get_elem?-append_next xs y z

  pub is_empty-append : (xs : List A) (y z : A) → is_empty (xs ++ (y ∷ z ∷ [])) ≡ false
  is_empty-append [] y z = refl
  is_empty-append (x ∷ xs) y z = refl

module _ {A : Type 0} (setup : LoggerSetup A) where
  -- The rows of these snapshots behind the hash `previous`, and the hash of the last.
  abbrev pub rows_for : Text → List A → List Row
  rows_for previous [] = []
  rows_for previous (a ∷ l) = final_row setup a previous ∷ rows_for (row_hash setup a previous) l

  abbrev pub last_hash : Text → List A → Text
  last_hash previous [] = previous
  last_hash previous (a ∷ l) = last_hash (row_hash setup a previous) l

  pub rows_for-append :
      (previous : Text) (l : List A) (a : A)
      → rows_for previous (l ++ (a ∷ []))
        ≡ rows_for previous l ++ (final_row setup a (last_hash previous l) ∷ [])
  rows_for-append previous [] a = refl
  rows_for-append previous (b ∷ l) a =
      ap (◌∷◌ (final_row setup b previous)) (rows_for-append (row_hash setup b previous) l a)

  pub last_hash-append :
      (previous : Text) (l : List A) (a : A)
      → last_hash previous (l ++ (a ∷ [])) ≡ row_hash setup a (last_hash previous l)
  last_hash-append previous [] a = refl
  last_hash-append previous (b ∷ l) a = last_hash-append (row_hash setup b previous) l a

  -- The recalculation from the cells of a written row gives the hash in the row.
  pub recalculated_hash-final_row :
      (a : A) (previous : Text)
      → recalculated_hash setup.sha256
          (length (setup.cells a))
          previous
          (final_row setup a previous)
        ≡ row_hash setup a previous
  unfolding recalculated_hash final_row row_hash
  recalculated_hash-final_row a previous =
      rw (take-append (setup.cells a) (row_hash setup a previous ∷ previous ∷ []))

  pub final_row-cells :
      (a : A) (previous : Text)
      → (is_empty (final_row setup a previous) ≡ false)
        × (get_elem? (final_row setup a previous) (length (setup.cells a))
            ≡ some (row_hash setup a previous))
        × (get_elem? (final_row setup a previous) (suc (length (setup.cells a))) ≡ some previous)
  unfolding final_row
  final_row-cells a previous =
      let sha = row_hash setup a previous in
      (
        is_empty-append (setup.cells a) sha previous,
        get_elem?-append (setup.cells a) sha previous,
        get_elem?-append_next (setup.cells a) sha previous,
      )

  -- A written row passes, and hands its own hash on.
  pub verify_rows-final_row :
      (a : A) (previous : Text) (row_idx : ℕ) (more : List Row)
      → let n = length (setup.cells a) in
        verify_rows setup.sha256 n (suc n) previous row_idx (final_row setup a previous ∷ more)
        ≡ verify_rows setup.sha256 n (suc n) (row_hash setup a previous) (row_idx + 1) more
  unfolding verify_rows
  verify_rows-final_row a previous row_idx more = ground (
    arith,
    final_row-cells a previous,
    recalculated_hash-final_row a previous,
    equal_self (row_hash setup a previous),
    equal_self previous,
  )

  -- What follows a chain is checked from the chain's last hash on.
  pub verify_rows-rows_for :
      (n : ℕ) (widths : (a : A) → length (setup.cells a) ≡ n) (l : List A) (previous : Text)
      (row_idx : ℕ) (more : List Row)
      → verify_rows setup.sha256 n (suc n) previous row_idx (rows_for previous l ++ more)
        ≡ verify_rows setup.sha256 n (suc n) (last_hash previous l) (row_idx + length l) more
  verify_rows-rows_for n widths [] previous row_idx more = rw add-zero
  verify_rows-rows_for n widths (a ∷ l) previous row_idx more =
      subst
        (λ k.
          verify_rows setup.sha256 k (suc k) previous row_idx
            (final_row setup a previous ∷ (rows_for (row_hash setup a previous) l ++ more))
          ≡ verify_rows setup.sha256 k (suc k) (row_hash setup a previous) (row_idx + 1)
              (rows_for (row_hash setup a previous) l ++ more))
        (widths a)
        (verify_rows-final_row a previous row_idx (rows_for (row_hash setup a previous) l ++ more))
      ∙ verify_rows-rows_for n widths l (row_hash setup a previous) (row_idx + 1) more
      ∙ ap
          (λ (k : ℕ).
            verify_rows setup.sha256 n (suc n) (last_hash (row_hash setup a previous) l) k more)
          (omega arith)

  -- A file of the header and a chain from the anchor is secure.
  pub verify_chain :
      (n : ℕ) (widths : (a : A) → length (setup.cells a) ≡ n)
      → index_of (codes "current_row_sha256") setup.csv_headers ≡ some n
      → index_of (codes "previous_row_sha256") setup.csv_headers ≡ some (suc n)
      → (l : List A)
      → verify_file setup.sha256 (setup.csv_headers ∷ rows_for genesis_hash l) ≡ secure
  unfolding verify_file verify_rows
  verify_chain n widths hi hp l =
      rw (hi, hp)
        (rw (← append-nil (rows_for genesis_hash l))
          (verify_rows-rows_for n widths l genesis_hash 0 []))

  -- The file holds the header and the chain of the snapshots written, and the logger has the hash
  -- of the last.
  pub record IsChained (s : Logger A) : Type 0 where
    pub written : List A
    pub file_is : s.file ≡ some (setup.csv_headers ∷ rows_for genesis_hash written)
    pub hash_is : s.previous_row_hash ≡ last_hash genesis_hash written

  module _ (bound : setup.watchdog_bound ≡ true) where
    write_item-IsChained :
        (disk_ok : Bool) (a : A) (s : Logger A)
        → IsChained s
        → IsChained (write_item setup disk_ok a s)
    unfolding write_item
    write_item-IsChained false a s c = c
    write_item-IsChained true a s c = simp bound (record {
      written = c.written ++ (a ∷ []);
      file_is =
          rw (c.file_is, c.hash_is)
            (ap (λ (rows : List Row). some (setup.csv_headers ∷ rows))
              (sym (rows_for-append genesis_hash c.written a)));
      hash_is = rw c.hash_is (sym (last_hash-append genesis_hash c.written a));
    })

    IsChained-same :
        (s t : Logger A)
        → t.file ≡ s.file
        → t.previous_row_hash ≡ s.previous_row_hash
        → IsChained s
        → IsChained t
    IsChained-same s t ef eh c = record {
      written = c.written;
      file_is = ef ∙ c.file_is;
      hash_is = eh ∙ c.hash_is;
    }

    worker_round-IsChained :
        (disk_ok : Bool) (queue : List A) (s : Logger A)
        → IsChained s
        → IsChained (worker_round setup disk_ok queue s)
    unfolding worker_round
    worker_round-IsChained disk_ok [] s c = IsChained-same s _ (ground arith) (ground arith) c
    worker_round-IsChained disk_ok (a ∷ rest) s c =
        write_item-IsChained disk_ok a (record s { log_queue = rest })
          (IsChained-same s (record s { log_queue = rest }) refl refl c)

    initialize_log_file-same :
        (disk_ok : Bool) (s : Logger A) (rows : List Row)
        → s.file ≡ some rows
        → (initialize_log_file setup disk_ok s).file ≡ s.file
    unfolding initialize_log_file
    initialize_log_file-same disk_ok s rows e = ground arith

    initialize_log_file-hash :
        (disk_ok : Bool) (s : Logger A)
        → (initialize_log_file setup disk_ok s).previous_row_hash ≡ s.previous_row_hash
    unfolding initialize_log_file
    initialize_log_file-hash disk_ok s = ground arith

    -- Two writers stay two writers.
    initialize_log_file-overlapping :
        (disk_ok : Bool) (s : Logger A)
        → (initialize_log_file setup disk_ok s).overlapping ≡ s.overlapping
    unfolding initialize_log_file
    initialize_log_file-overlapping disk_ok s = ground arith

    worker_round-overlapping :
        (disk_ok : Bool) (queue : List A) (s : Logger A)
        → (worker_round setup disk_ok queue s).overlapping ≡ s.overlapping
    unfolding worker_round write_item
    worker_round-overlapping disk_ok [] s = ground arith
    worker_round-overlapping disk_ok (a ∷ rest) s = ground arith

    write_taken-overlapping :
        (ok : Bool) (i : ℕ) (h r left : Text) (o : Option A) (s : Logger A)
        → (write_taken setup ok i h r left o s).overlapping ≡ s.overlapping
    unfolding write_taken
    write_taken-overlapping ok i h r left none s = refl
    write_taken-overlapping ok i h r left (some a) s = refl

    take_one-overlapping :
        (queue : List A) (s : Logger A) → (take_one setup queue s).overlapping ≡ s.overlapping
    unfolding take_one
    take_one-overlapping [] s = refl
    take_one-overlapping (a ∷ rest) s = refl

    step-overlapping :
        (e : LogEvent A) (s : Logger A)
        → (step setup e s).overlapping ≡ false
        → s.overlapping ≡ false
    unfolding step
    step-overlapping (start_services disk_ok) s h =
        let started = record s {
          is_logging = true;
          worker_alive = true;
          overlapping = s.overlapping || s.worker_alive;
        } in
        ground (arith, initialize_log_file-overlapping disk_ok started)
    step-overlapping (capture a) s h = ground arith
    step-overlapping (write_next disk_ok) s h =
        ground (arith, worker_round-overlapping disk_ok s.log_queue s)
    step-overlapping stop_services s h = h
    step-overlapping take_beside s h = ground (arith, take_one-overlapping s.log_queue s)
    step-overlapping (write_beside ok i k r left) s h =
        ground (arith, write_taken-overlapping ok i k r left (get_elem? s.in_hand i) s)

    pub run-overlapping :
        (l : List (LogEvent A)) (s : Logger A)
        → (run setup l s).overlapping ≡ false
        → s.overlapping ≡ false
    run-overlapping [] s h = h
    run-overlapping (e ∷ l) s h = step-overlapping e s (run-overlapping l (step setup e s) h)

    step-IsChained :
        (e : LogEvent A) (s : Logger A)
        → s.overlapping ≡ false
        → IsChained s
        → IsChained (step setup e s)
    unfolding step
    step-IsChained (start_services disk_ok) s single c =
        let started = record s {
          is_logging = true;
          worker_alive = true;
          overlapping = s.overlapping || s.worker_alive;
        } in
        IsChained-same s _ (ground (arith, initialize_log_file-same disk_ok started _ c.file_is))
          (ground (arith, initialize_log_file-hash disk_ok started)) c
    step-IsChained (capture a) s single c = IsChained-same s _ (ground arith) (ground arith) c
    step-IsChained (write_next disk_ok) s single c = elim (Bool-cases s.worker_alive) [
      | inl alive ↦
          let after = worker_round setup disk_ok s.log_queue s in
          simp alive (
            IsChained-same after (keep_other setup after) refl refl
              (worker_round-IsChained disk_ok s.log_queue s c))
      | inr dead ↦ simp dead c
    ]
    step-IsChained stop_services s single c = IsChained-same s _ refl refl c
    step-IsChained take_beside s single c = simp single c
    step-IsChained (write_beside ok i h r left) s single c = simp single c

    run-IsChained :
        (l : List (LogEvent A)) (s : Logger A)
        → (run setup l s).overlapping ≡ false
        → IsChained s
        → IsChained (run setup l s)
    run-IsChained [] s single c = c
    run-IsChained (e ∷ l) s single c =
        let before = step-overlapping e s (run-overlapping l (step setup e s) single) in
        run-IsChained l (step setup e s) single (step-IsChained e s before c)

    fresh-IsChained : IsChained (step setup (start_services true) (new_logger none))
    unfolding step initialize_log_file new_logger
    fresh-IsChained = record { written = []; file_is = refl; hash_is = refl }

    -- With the watchdog bound, the header written and its two hash columns behind the
    -- cells, whatever happens to a logger of the day afterwards (captures, writes, failed
    -- disk accesses, stops and restarts of the services), as long as no start finds the
    -- former writer alive, there is a file, and the boot suite finds it secure.
    pub run-secure :
        (n : ℕ) (widths : (a : A) → length (setup.cells a) ≡ n)
        → index_of (codes "current_row_sha256") setup.csv_headers ≡ some n
        → index_of (codes "previous_row_sha256") setup.csv_headers ≡ some (suc n)
        → (l : List (LogEvent A))
        → (run setup (start_services true ∷ l) (new_logger none)).overlapping ≡ false
        → (rows : List Row) × ((run setup (start_services true ∷ l) (new_logger none)).file
            ≡ some rows)
          × (verify_file setup.sha256 rows ≡ secure)
    run-secure n widths hi hp l single =
        let c = run-IsChained l _ single fresh-IsChained in
        (
          setup.csv_headers ∷ rows_for genesis_hash c.written,
          c.file_is,
          verify_chain n widths hi hp c.written,
        )
