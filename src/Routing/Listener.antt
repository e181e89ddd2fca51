-- ===== src/Routing/Listener.antt =====
-- serial_port_listener.py, ThreadedSerialPortListener: the rounds of its read loop, with the
-- reconnections. What the port does is given; the emulation without pyserial and the length of the
-- pauses are not modelled. A stop waits two seconds for the reader and no longer, so that a blocked
-- or pausing reader survives it and a start adds another: readers are counted, by whether their next
-- act is the test of the loop or the end of a round.
use univac.Base.{ℕ, zero, suc, Bool, true, false, List, [], ◌∷◌, ltb, if◌then◌else◌, is_empty}
use univac.Text.{Text, strip}
use univac.Floats.{Floating}
use univac.Routing.Router.{Router, ingest_raw_serial_line}

pub record PortListener : Type 0 where
  pub is_listening : Bool
  pub is_connected : Bool
  -- readers in front of `while self.is_listening`, and readers in the body of the loop
  pub checking : ℕ
  pub reading : ℕ

-- What a round meets: the port cannot be opened, reading raises, or `readline` answers bytes (none
-- at the timeout).
pub data PortRound : Type 0 where
  open_failed read_failed : PortRound
  read_bytes : Text → PortRound

-- `raw_bytes.decode('ascii', errors='ignore')`
unfoldable pub decode_ascii : Text → Text
decode_ascii [] = []
decode_ascii (c ∷ s) = let rest = decode_ascii s in if ltb c 128 then c ∷ rest else rest

unfoldable pub new_listener : PortListener
new_listener = record { is_listening = false; is_connected = false; checking = 0; reading = 0 }

unfoldable pub start_listening : PortListener → PortListener
start_listening p =
    if p.is_listening then p else record p { is_listening = true; checking = suc p.checking }

-- The flag; the connection is closed once the wait for the reader is over.
unfoldable pub stop_listening : PortListener → PortListener
stop_listening p = record p { is_listening = false }

unfoldable pub close_port : PortListener → PortListener
close_port p = record p { is_connected = false }

-- A reader at the test of the loop goes on into the body, or ends.
unfoldable pub check_loop : ℕ → PortListener → PortListener
check_loop zero p = p
check_loop (suc k) p =
    if p.is_listening
    then record p { checking = k; reading = suc p.reading }
    else record p { checking = k }

-- The connection behind a round: it is dropped where anything raises.
unfoldable pub connection_after : PortRound → PortListener → PortListener
connection_after open_failed p = record p { is_connected = p.is_connected }
connection_after read_failed p = record p { is_connected = false }
connection_after (read_bytes raw_bytes) p = record p { is_connected = true }

-- Starts, the two parts of a stop, tests of the loop, and ends of rounds, each with the time of its
-- call of the router.
pub data PortEvent (F : Type 0) : Type 0 where
  listen stop_listen stop_close port_check : PortEvent F
  port_round : F → PortRound → PortEvent F

module _ {F : Type 0} ⦃fl : Floating F⦄ where
  -- Blank lines are not forwarded.
  unfoldable pub forward : F → PortRound → Router F → Router F
  forward now (read_bytes raw_bytes) r =
      let decoded_sentence = decode_ascii raw_bytes in
      if is_empty (strip decoded_sentence) then r else ingest_raw_serial_line decoded_sentence now r
  forward now _ r = r

  -- The end of a round, where a reader is in one.
  unfoldable pub read_loop_round :
      F → PortRound → ℕ → PortListener → Router F → PortListener × Router F
  read_loop_round now outcome zero p r = (p, r)
  read_loop_round now outcome (suc k) p r = (
    record (connection_after outcome p) { reading = k; checking = suc p.checking },
    forward now outcome r,
  )

  unfoldable pub port_step : PortEvent F → PortListener → Router F → PortListener × Router F
  port_step listen p r = (start_listening p, r)
  port_step stop_listen p r = (stop_listening p, r)
  port_step stop_close p r = (close_port p, r)
  port_step port_check p r = (check_loop p.checking p, r)
  port_step (port_round now outcome) p r = read_loop_round now outcome p.reading p r

  abbrev pub port_run : List (PortEvent F) → PortListener → Router F → PortListener × Router F
  port_run [] p r = (p, r)
  port_run (e ∷ l) p r = let (p', r') = port_step e p r in port_run l p' r'
