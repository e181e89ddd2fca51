-- ===== src/Watchdog.antt =====
-- network_layer/hardware_watchdog.py and network_layer/multi_ledger_watchdog.py: the supervisors that
-- compare the last sign of life of each thread, and of each ledger, with the clock. The dictionaries
-- are association lists in their order; `time.time()` is an argument; the printed warnings are not
-- modelled.
pub mod Threads
pub mod Ledgers
pub mod Registers
pub mod Trips
pub mod Backlog
use univac.Base.{ℕ, Bool, true, false, List, [], ◌∷◌, ◌||◌, if◌then◌else◌}
use univac.Text.{Text, equal}

-- A dictionary by name.
abbrev pub Register : Type 0 → Type 0
Register A = List (Text × A)

module _ {A : Type 0} where
  -- `name in d`
  unfoldable pub has_key : Text → Register A → Bool
  has_key name [] = false
  has_key name ((k, v) ∷ d) = equal k name || has_key name d

  -- `d[name] = v` for a name that is there; any other name leaves the dictionary alone.
  unfoldable pub set_present : Text → A → Register A → Register A
  set_present name v [] = []
  set_present name v ((k, w) ∷ d) =
      let rest = set_present name v d in if equal k name then (k, v) ∷ rest else (k, w) ∷ rest

  -- `for key in d.keys(): d[key] = v`
  unfoldable pub set_all : A → Register A → Register A
  set_all v [] = []
  set_all v ((k, w) ∷ d) = (k, v) ∷ set_all v d

  -- The names whose entry satisfies the test, in the dictionary's order.
  unfoldable pub names_where : (A → Bool) → Register A → List Text
  names_where p [] = []
  names_where p ((k, v) ∷ d) = let rest = names_where p d in if p v then k ∷ rest else rest
