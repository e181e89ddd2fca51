-- ===== src/Tcp.antt =====
-- network_layer/tcp_command_listener.py: the validation of ordered setpoints, and the handler of one
-- client's stream, which cuts what `recv` delivers into lines.
--
-- `json.loads` is the parameter `loads` (none is JSONDecodeError). A chunk is the bytes of one `recv`,
-- which are decoded on their own; timeouts change nothing and are not events. `sendall` is taken to succeed. When the handler
-- leaves its loop its local buffer is gone: the model empties it.
pub mod Safety
pub mod Framing
use univac.Base.{
  ℕ, Bool, true, false, not, ◌&&◌, ◌||◌, Option, none, some, List, [], ◌∷◌, ◌++◌, is_empty,
  if◌then◌else◌, all, leb, ◌==◌,
}
use univac.Text.{Text, codes, is_space, contains, split, equal}
use univac.Text.Utf8.{decode_utf8}
use univac.Floats.{Floating}

-- A JSON value, as far as the validation tells values apart.
pub data JsonValue (F : Type 0) : Type 0 where
  json_null : JsonValue F
  json_bool : Bool → JsonValue F
  json_number : F → JsonValue F
  -- a string, list or object: a comparison with a number raises TypeError
  json_other : JsonValue F

pub data JsonPayload (F : Type 0) : Type 0 where
  json_object : List (Text × JsonValue F) → JsonPayload F
  -- not a dictionary: `.get` raises AttributeError
  json_not_object : JsonPayload F

pub data Reply : Type 0 where
  accepted rejected_missing_key rejected_rpm rejected_yaw_rate rejected_type : Reply
  rejected_malformed_json : Reply

pub record Setpoints (F : Type 0) : Type 0 where
  pub rpm : F
  pub target_yaw_rate : F

pub record Session (F : Type 0) : Type 0 where
  pub setpoints : Setpoints F
  pub buffer : Text
  pub connected : Bool
  -- the status frames sent, in order
  pub sent : List Reply

-- The whitespace of `str.strip` beyond ASCII.
abbrev pub is_wide_space : ℕ → Bool
is_wide_space c =
    c == 133
    || c == 160
    || c == 5760
    || leb 8192 c && leb c 8202
    || c == 8232
    || c == 8233
    || c == 8239
    || c == 8287
    || c == 12288

-- `not line.strip()`
unfoldable pub is_blank : Text → Bool
is_blank line = all (λ c. is_space c || is_wide_space c) line

module _ {F : Type 0} where
  -- `json_payload.get(key)`, null counting as None
  unfoldable pub get_value : Text → List (Text × JsonValue F) → JsonValue F
  get_value key [] = json_null
  get_value key ((k, v) ∷ l) = if equal k key then v else get_value key l

  abbrev pub is_null : JsonValue F → Bool
  is_null json_null = true
  is_null _ = false

module _ {F : Type 0} ⦃fl : Floating F⦄ where
  -- The value as a comparison with a float and `float()` take it; none is TypeError.
  abbrev pub as_number : JsonValue F → Option F
  as_number (json_number x) = some x
  as_number (json_bool true) = some (fl.lit 1 0)
  as_number (json_bool false) = some (fl.lit 0 0)
  as_number _ = none

  -- -200.0 <= x <= 1200.0
  abbrev pub rpm_in_range : F → Bool
  rpm_in_range x = fl.le (fl.neg (fl.lit 2000 1)) x && fl.le x (fl.lit 12000 1)

  -- -0.8 <= x <= 0.8
  abbrev pub yaw_in_range : F → Bool
  yaw_in_range x = fl.le (fl.neg (fl.lit 8 1)) x && fl.le x (fl.lit 8 1)

  abbrev pub check_yaw : Setpoints F → F → Option F → Reply × Setpoints F
  check_yaw sp r none = (rejected_type, sp)
  check_yaw sp r (some y) =
      if not (yaw_in_range y)
      then (rejected_yaw_rate, sp)
      else (accepted, record { rpm = r; target_yaw_rate = y })

  abbrev pub check_rpm : Setpoints F → Option F → Option F → Reply × Setpoints F
  check_rpm sp none y = (rejected_type, sp)
  check_rpm sp (some r) y = if not (rpm_in_range r) then (rejected_rpm, sp) else check_yaw sp r y

  -- The body of the `try`, on the two values.
  unfoldable pub validate_values : Setpoints F → JsonValue F → JsonValue F → Reply × Setpoints F
  validate_values sp new_rpm new_yaw_rate =
      if is_null new_rpm || is_null new_yaw_rate
      then (rejected_missing_key, sp)
      else check_rpm sp (as_number new_rpm) (as_number new_yaw_rate)

  -- `validate_and_update_targets` on a dictionary
  unfoldable pub validate_and_update_targets :
      Setpoints F → List (Text × JsonValue F) → Reply × Setpoints F
  unfolding validate_values
  validate_and_update_targets sp payload =
      validate_values sp (get_value (codes "rpm") payload)
        (get_value (codes "target_yaw_rate") payload)

  unfoldable pub initial_session : Session F
  initial_session = record {
    setpoints = record { rpm = fl.lit 0 1; target_yaw_rate = fl.lit 0 1 };
    buffer = [];
    connected = true;
    sent = [];
  }

  abbrev pub disconnect : Session F → Session F
  disconnect s = record s { connected = false; buffer = [] }

  module _ (loads : Text → Option (JsonPayload F)) where
    -- What the inner `try` does with a parsed packet.
    unfoldable pub handle_packet : Option (JsonPayload F) → Session F → Session F
    handle_packet none s = record s { sent = s.sent ++ (rejected_malformed_json ∷ []) }
    handle_packet (some json_not_object) s = disconnect s
    handle_packet (some (json_object payload)) s =
        let (reply, sp) = validate_and_update_targets s.setpoints payload in
        record s { setpoints = sp; sent = s.sent ++ (reply ∷ []) }

    unfoldable pub handle_line : Text → Session F → Session F
    handle_line line s = if is_blank line then s else handle_packet (loads line) s

    -- The `for` over `lines[:-1]`; the last line becomes the buffer. A disconnect leaves the loop.
    unfoldable pub handle_lines : List Text → Session F → Session F
    handle_lines [] s = s
    handle_lines (last ∷ []) s = if s.connected then record s { buffer = last } else s
    handle_lines (line ∷ next ∷ lines) s =
        if s.connected then handle_lines (next ∷ lines) (handle_line line s) else s

    -- One round of `_handle_client_stream`.
    unfoldable pub receive_chunk : Text → Session F → Session F
    receive_chunk data_ s =
        let buffer = s.buffer ++ decode_utf8 data_ in
        if not s.connected
        then s
        else if is_empty data_
        then disconnect s
        else if contains 10 buffer
        then handle_lines (split 10 buffer) s
        else record s { buffer = buffer }

    abbrev pub receive_all : List Text → Session F → Session F
    receive_all [] s = s
    receive_all (c ∷ l) s = receive_all l (receive_chunk c s)
