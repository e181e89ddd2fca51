-- ===== src/Ledger.antt =====
-- network_layer/flag_fault_logger.py, bilge_audit_logger.py and shore_audit_logger.py: the audit loggers
-- with a bounded queue, a writer thread and rows chained by SHA-256. They differ in the keys of a
-- snapshot (children Flag, Bilge and Shore) and share all else, which is modelled here once.
--
-- A CSV file is the list of its rows, each a list of cells: `csv.reader` gives back what
-- `csv.writer` wrote. `hashlib.sha256(...).hexdigest()` is the parameter `sha256`. The module-level
-- name `watchdog`, which the writer uses and the modules do not define, is the flag
-- `watchdog_bound`: where it is not bound the call raises NameError, which ends the thread.
--
-- The writer is a thread of its own: start_services stands for the start with the thread's first
-- action, the header. While one writer lives, nobody else reads or stores the hash, so that its round
-- is one event. A stop waits five seconds for the writer and no longer; a start that finds the former
-- writer alive leaves two of them (`overlapping`), and what each then takes from the queue, reads as
-- the hash, records and leaves behind is given by the events take_beside and write_beside.
pub mod Flag
pub mod Bilge
pub mod Shore
pub mod Verify
pub mod Chain
pub mod Restart
pub mod Tamper
pub mod Queue
pub mod Drain
pub mod Machine
pub mod Mission
pub mod Linked
pub mod Latest
pub mod Boot
use univac.Base.{
  ℕ, ◌<◌, Bool, true, false, not, ◌&&◌, ◌||◌, Option, none, some, List, [], ◌∷◌, ◌++◌, length, ltb,
  is_empty, if◌then◌else◌, zero, suc, get_elem?,
}
use univac.Text.{Text, codes, join}

abbrev pub Row : Type 0
Row = List Text

-- The anchor of the chain, 64 zeros.
unfoldable pub genesis_hash : Text
genesis_hash = codes "0000000000000000000000000000000000000000000000000000000000000000"

abbrev pub queue_limit : ℕ
queue_limit = 1000

pub record Logger (A : Type 0) : Type 0 where
  pub is_logging : Bool
  pub log_queue : List A
  pub previous_row_hash : Text
  -- whether a writer lives; behind an overlap, whether one may
  pub worker_alive : Bool
  -- whether a start has found a writer alive
  pub overlapping : Bool
  -- what overlapping writers have taken and not written
  pub in_hand : List A
  -- the file of the day: none if it does not exist
  pub file : Option (List Row)

-- What happens to a logger. The flag says whether the disk access of the event succeeds (or raises
-- IOError).
pub data LogEvent (A : Type 0) : Type 0 where
  start_services : Bool → LogEvent A
  capture : A → LogEvent A
  -- one round of the writer's loop
  write_next : Bool → LogEvent A
  stop_services : LogEvent A
  -- an overlapping writer takes a snapshot; one of them writes the i-th that is taken, with the hash
  -- that it read for the digest, the one that it read for the last cell, and the one that is left
  take_beside : LogEvent A
  write_beside : (disk_ok : Bool) (i : ℕ) (hashed recorded left : Text) → LogEvent A

-- Without the i-th.
abbrev pub remove_at : {A : Type 0} → ℕ → List A → List A
remove_at i [] = []
remove_at zero (x ∷ l) = l
remove_at (suc i) (x ∷ l) = x ∷ remove_at i l

abbrev pub is_none {ℓ} : {A : Type ℓ} → Option A → Bool
is_none none = true
is_none (some a) = false

abbrev pub append_row : Option (List Row) → Row → Option (List Row)
append_row none row = some (row ∷ [])
append_row (some rows) row = some (rows ++ (row ∷ []))

-- What the two loggers differ in, and what they take from elsewhere.
pub record LoggerSetup (A : Type 0) : Type 0 where
  pub sha256 : Text → Text
  -- the `str` of the values in front of the two hashes
  pub cells : A → List Text
  pub csv_headers : Row
  pub watchdog_bound : Bool

-- A new logger of a process: the file may be there from earlier in the day.
unfoldable pub new_logger : {A : Type 0} → Option (List Row) → Logger A
new_logger file = record {
  is_logging = false;
  log_queue = [];
  previous_row_hash = genesis_hash;
  worker_alive = false;
  overlapping = false;
  in_hand = [];
  file = file;
}

module _ {A : Type 0} (setup : LoggerSetup A) where
  -- f"{...},{...},{self.previous_row_hash}"
  unfoldable pub data_string : A → Text → Text
  data_string a previous = join b',' (setup.cells a) ++ (b',' ∷ previous)

  unfoldable pub row_hash : A → Text → Text
  unfolding data_string
  row_hash a previous = setup.sha256 (data_string a previous)

  unfoldable pub final_row : A → Text → Row
  final_row a previous = setup.cells a ++ (row_hash a previous ∷ previous ∷ [])

  -- `_initialize_log_file`
  unfoldable pub initialize_log_file : Bool → Logger A → Logger A
  initialize_log_file disk_ok s =
      if is_none s.file && disk_ok
      then record s { file = some (setup.csv_headers ∷ []); worker_alive = setup.watchdog_bound }
      else s

  -- The part of the loop behind `log_queue.get`: the item has left the queue.
  unfoldable pub write_item : Bool → A → Logger A → Logger A
  write_item disk_ok a s =
      let sha = row_hash a s.previous_row_hash in
      let written = record s { file = append_row s.file (final_row a s.previous_row_hash) } in
      if not disk_ok
      then s
      else if setup.watchdog_bound
      then record written { previous_row_hash = sha }
      else record written { worker_alive = false }

  -- One round of `_io_writer_worker_loop`.
  unfoldable pub worker_round : Bool → List A → Logger A → Logger A
  worker_round disk_ok [] s = if s.is_logging then s else record s { worker_alive = false }
  worker_round disk_ok (a ∷ rest) s = write_item disk_ok a (record s { log_queue = rest })

  -- The end of one writer is not the end of the other.
  abbrev pub keep_other : Logger A → Logger A
  keep_other s = record s { worker_alive = s.worker_alive || s.overlapping }

  unfoldable pub take_one : List A → Logger A → Logger A
  take_one [] s = s
  take_one (a ∷ rest) s = record s { log_queue = rest; in_hand = s.in_hand ++ (a ∷ []) }

  unfoldable pub write_taken : Bool → ℕ → Text → Text → Text → Option A → Logger A → Logger A
  write_taken disk_ok i hashed recorded left none s = s
  write_taken disk_ok i hashed recorded left (some a) s =
      let row = setup.cells a ++ (row_hash a hashed ∷ recorded ∷ []) in
      record s {
        in_hand = remove_at i s.in_hand;
        file = if disk_ok then append_row s.file row else s.file;
        previous_row_hash = left;
      }

  unfoldable pub step : LogEvent A → Logger A → Logger A
  step (start_services disk_ok) s =
      if s.is_logging
      then s
      else keep_other (
          initialize_log_file disk_ok (record s {
            is_logging = true;
            worker_alive = true;
            overlapping = s.overlapping || s.worker_alive;
          }))
  step (capture a) s =
      if not s.is_logging
      then s
      else if ltb (length s.log_queue) queue_limit
      then record s { log_queue = s.log_queue ++ (a ∷ []) }
      else s
  step (write_next disk_ok) s =
      if s.worker_alive then keep_other (worker_round disk_ok s.log_queue s) else s
  step stop_services s = record s { is_logging = false }
  step take_beside s = if s.overlapping then take_one s.log_queue s else s
  step (write_beside disk_ok i hashed recorded left) s =
      if s.overlapping
      then write_taken disk_ok i hashed recorded left (get_elem? s.in_hand i) s
      else s

  abbrev pub run : List (LogEvent A) → Logger A → Logger A
  run [] s = s
  run (e ∷ l) s = run l (step e s)
