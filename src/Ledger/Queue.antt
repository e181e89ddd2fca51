-- ===== src/Ledger/Queue.antt =====
-- The memory queue in front of the writer.
use univac.Base.{
  none, some, ℕ, get_elem?, ◌≤◌, ◌≡◌, refl, Bool, true, Option, List, [], ◌∷◌, ◌++◌, arith, length,
  length-append, ltb, if◌then◌else◌,
}
use univac.Text.{Text}
use univac.Ledger.{
  Row, Logger, LoggerSetup, LogEvent, start_services, capture, write_next, stop_services,
  take_beside, write_beside, take_one, write_taken, queue_limit, new_logger, initialize_log_file,
  write_item, worker_round, step, run,
}

module _ {A : Type 0} (setup : LoggerSetup A) where
  write_item-queue :
      (disk_ok : Bool) (a : A) (s : Logger A)
      → (write_item setup disk_ok a s).log_queue ≡ s.log_queue
  unfolding write_item
  write_item-queue disk_ok a s = ground arith

  worker_round-queue :
      (disk_ok : Bool) (queue : List A) (s : Logger A)
      → s.log_queue ≡ queue
      → length (worker_round setup disk_ok queue s).log_queue ≤ length queue
  unfolding worker_round
  worker_round-queue disk_ok [] s e = ground arith
  worker_round-queue disk_ok (a ∷ rest) s e =
      ground (arith, write_item-queue disk_ok a (record s { log_queue = rest }))

  take_one-queue :
      (queue : List A) (s : Logger A)
      → s.log_queue ≡ queue
      → length (take_one setup queue s).log_queue ≤ length queue
  unfolding take_one
  take_one-queue [] s e = ground arith
  take_one-queue (a ∷ rest) s e = ground arith

  write_taken-queue :
      (ok : Bool) (i : ℕ) (h r left : Text) (o : Option A) (s : Logger A)
      → (write_taken setup ok i h r left o s).log_queue ≡ s.log_queue
  unfolding write_taken
  write_taken-queue ok i h r left none s = refl
  write_taken-queue ok i h r left (some a) s = refl

  step-queue :
      (e : LogEvent A) (s : Logger A)
      → length s.log_queue ≤ queue_limit
      → length (step setup e s).log_queue ≤ queue_limit
  unfolding step initialize_log_file
  step-queue (start_services disk_ok) s h = ground arith
  step-queue (capture a) s h = ground (arith, length-append s.log_queue (a ∷ []))
  step-queue (write_next disk_ok) s h =
      ground (arith, worker_round-queue disk_ok s.log_queue s refl)
  step-queue stop_services s h = h
  step-queue take_beside s h = ground (arith, take_one-queue s.log_queue s refl)
  step-queue (write_beside ok i k r left) s h =
      ground (arith, write_taken-queue ok i k r left (get_elem? s.in_hand i) s)

  run_keeps :
      (l : List (LogEvent A)) (s : Logger A)
      → length s.log_queue ≤ queue_limit
      → length (run setup l s).log_queue ≤ queue_limit
  run_keeps [] s h = h
  run_keeps (e ∷ l) s h = run_keeps l (step setup e s) (step-queue e s h)

  -- Whatever happens to a logger, at most 1000 snapshots wait in memory.
  pub run-queue_bounded :
      (l : List (LogEvent A)) (file : Option (List Row))
      → length (run setup l (new_logger file)).log_queue ≤ queue_limit
  run-queue_bounded l file = run_keeps l (new_logger file) (unfold new_logger in omega arith)

  -- A snapshot that is captured while the services run waits last in the queue, or, if 1000 wait
  -- already, is dropped.
  pub capture_lem :
      (a : A) (s : Logger A)
      → s.is_logging ≡ true
      → (step setup (capture a) s).log_queue
        ≡ (if ltb (length s.log_queue) queue_limit then s.log_queue ++ (a ∷ []) else s.log_queue)
  unfolding step
  capture_lem a s h = ground arith
