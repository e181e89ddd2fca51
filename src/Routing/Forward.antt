-- ===== src/Routing/Forward.antt =====
-- The listener, seen from the router: what is delivered before and behind a stop.
use univac.Base.{
  ℕ, ◌≤◌, ◌≡◌, Bool, true, false, List, [], ◌∷◌, ◌++◌, length, is_empty, if◌then◌else◌,
}
use univac.Text.{strip}
use univac.Floats.{Floating}
use univac.Routing.Router.{Router, RouterEvent, serial_line, router_run}
use univac.Routing.Listener.{
  PortListener, PortRound, open_failed, read_failed, read_bytes, PortEvent, listen, port_check,
  port_round, decode_ascii,
}

-- The time of a round, and what the port does in it.
abbrev pub TimedRound : Type 0 → Type 0
TimedRound F = F × PortRound

-- The one reader of a started listener: at the test of the loop, and in a round.
abbrev pub at_test : Bool → PortListener
at_test c = record { is_listening = true; is_connected = c; checking = 1; reading = 0 }

abbrev pub in_round : Bool → PortListener
in_round c = record { is_listening = true; is_connected = c; checking = 0; reading = 1 }

abbrev pub connected_after : PortRound → Bool → Bool
connected_after open_failed c = c
connected_after read_failed c = false
connected_after (read_bytes raw) c = true

module _ {F : Type 0} where
  -- The line that a round hears, unless it is blank.
  abbrev pub heard : TimedRound F → List (RouterEvent F)
  heard (now, read_bytes raw) =
      if is_empty (strip (decode_ascii raw)) then [] else serial_line (decode_ascii raw) now ∷ []
  heard (now, _) = []

  abbrev pub all_heard : List (TimedRound F) → List (RouterEvent F)
  all_heard [] = []
  all_heard (o ∷ l) = heard o ++ all_heard l

  -- A reader that is at the test of the loop, these rounds of it, and the test behind them.
  abbrev pub loop_rounds : List (TimedRound F) → List (PortEvent F) → List (PortEvent F)
  loop_rounds [] rest = port_check ∷ rest
  loop_rounds ((now, o) ∷ l) rest = port_check ∷ port_round now o ∷ loop_rounds l rest

  abbrev pub NoListen : List (PortEvent F) → Type 0
  NoListen [] = Unit
  NoListen (listen ∷ l) = ⊥
  NoListen (_ ∷ l) = NoListen l

module _ {F : Type 0} ⦃fl : Floating F⦄ where
  -- At most so many lines reach the router.
  abbrev pub AtMost : ℕ → Router F → Router F → Type 0
  AtMost n r r' = (late : List (RouterEvent F)) × (r' ≡ router_run late r) × (length late ≤ n)
