-- ===== src/Ledger/Machine.antt =====
-- The contract of an audit logger: a queue of at most 1000 snapshots in front of a ledger that only
-- grows, as a relation between its states. No hash, no thread and no file occurs in it.
use univac.Base.{◌<◌, ◌≡◌, true, some, List, [], ◌∷◌, ◌++◌, length}
use univac.Ledger.{Logger, LoggerSetup, genesis_hash, queue_limit}
use univac.Ledger.Chain.{rows_for, last_hash}

pub record Audit (A : Type 0) : Type 0 where
  pub pending : List A
  pub ledger : List A

-- What the contract allows in one step: nothing, to accept a snapshot while there is room, to enter
-- the oldest into the ledger, or to lose it (the disk failed).
pub data Moves {A : Type 0} : Audit A → Audit A → Type 0 where
  idle : (s : Audit A) → Moves s s
  accept :
      (a : A) (p w : List A)
      → length p < queue_limit
      → Moves (record { pending = p; ledger = w }) (record { pending = p ++ (a ∷ []); ledger = w })
  enter :
      (a : A) (p w : List A)
      → Moves
          (record { pending = a ∷ p; ledger = w })
          (record { pending = p; ledger = w ++ (a ∷ []) })
  lose :
      (a : A) (p w : List A)
      → Moves (record { pending = a ∷ p; ledger = w }) (record { pending = p; ledger = w })

-- Any number of steps.
pub data Reaches {A : Type 0} : Audit A → Audit A → Type 0 where
  here : (s : Audit A) → Reaches s s
  later : (s t u : Audit A) → Moves s t → Reaches t u → Reaches s u

module _ {A : Type 0} (setup : LoggerSetup A) (bound : setup.watchdog_bound ≡ true) where
  -- The file is the header and the chain of the ledger, and the logger has the hash of its last row.
  abbrev pub Shows : Logger A → List A → Type 0
  Shows s w =
      (s.file ≡ some (setup.csv_headers ∷ rows_for setup genesis_hash w))
      × (s.previous_row_hash ≡ last_hash setup genesis_hash w)

  -- The state of the contract that a logger with this ledger is in.
  abbrev pub state_of : Logger A → List A → Audit A
  state_of s w = record { pending = s.log_queue; ledger = w }

  -- The logger's step, seen as one of the contract's.
  abbrev pub Follows : Logger A → List A → Logger A → Type 0
  Follows s w t = (v : List A) × Moves (state_of s w) (state_of t v) × Shows t v
