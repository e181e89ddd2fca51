-- ===== src/Config/Handshake.antt =====
-- hardware_network_validator.py: the address handshake of a vessel class, and the audit of all
-- classes. The manifest's registry is an association list; what the raw socket delivers is given.
use univac.Base.{
  ℕ, ◌+◌, ◌*◌, Bool, true, false, ◌&&◌, Option, none, some, List, [], ◌∷◌, ◌++◌, take, ◌>>=◌, ◌==◌,
  if◌then◌else◌,
}
use univac.Text.{Text, codes, strip, lower, upper, equal, is_space}
use univac.Text.Number.{hex_digit_value}
use univac.Nmea.{checksum_of}
use univac.Encoders.Mac.{octet_6}
use univac.Config.Profile.{lookup}

-- What the socket does: the platform simulates the loopback, a frame comes in, or an exception
-- (no permission, a timeout, a driver's error) is caught.
pub data WireOutcome : Type 0 where
  simulated_loopback wire_error : WireOutcome
  inbound_packet : List ℕ → WireOutcome

-- The socket, as a function of the frame that is sent.
abbrev pub Wire : Type 0
Wire = List ℕ → WireOutcome

-- `s.replace(":", "")`
unfoldable pub remove_colons : Text → Text
remove_colons [] = []
remove_colons (c ∷ s) = let rest = remove_colons s in if c == b':' then rest else c ∷ rest

-- `bytes.fromhex(s)`: pairs of digits, with white space between the pairs; none is ValueError.
unfoldable pub from_hex : Text → Option (List ℕ)
from_hex [] = some []
from_hex (c ∷ []) = if is_space c then some [] else none
from_hex (c ∷ d ∷ s) =
    let skipped = from_hex (d ∷ s) in
    let rest = from_hex s in
    let pair = hex_digit_value c >>= λ high.
    hex_digit_value d >>= λ low. rest >>= λ bytes. some ((high * 16 + low) ∷ bytes) in
    if is_space c then skipped else pair

-- oui_bytes + struct.pack("!BBB", 0x00, 0x01, octet_6_val)
unfoldable pub target_mac_bytes : List ℕ → ℕ → ℕ → List ℕ
target_mac_bytes oui_bytes device_id mainframe_id =
    oui_bytes ++ (0 ∷ 1 ∷ octet_6 device_id mainframe_id ∷ [])

-- The frame: target, source, EtherType, payload and the checksum of the payload, star included.
unfoldable pub raw_ethernet_frame : List ℕ → Text → List ℕ
raw_ethernet_frame mac vessel_class_key =
    let payload = codes "PUNVCHND,VERIFY_LINK_ID," ++ (upper vessel_class_key ++ codes "*") in
    mac
    ++ ((0 ∷ 0 ∷ 0 ∷ 0 ∷ 0 ∷ 0 ∷ [])
        ++ ((136 ∷ 181 ∷ []) ++ (payload ++ (checksum_of payload ++ (13 ∷ 10 ∷ [])))))

-- received_frame_valid
unfoldable pub frame_is_valid : List ℕ → WireOutcome → Bool
frame_is_valid mac simulated_loopback = true
frame_is_valid mac wire_error = false
frame_is_valid mac (inbound_packet p) = equal (take 6 p) mac

-- `verify_tactical_handshake_frame`: none where `bytes.fromhex` raises, which no handler catches.
unfoldable pub verify_tactical_handshake_frame :
    List (Text × Text) → Wire → Text → ℕ → ℕ → Option Bool
verify_tactical_handshake_frame oui_registry wire vessel_class_key device_id mainframe_id =
    elim (lookup (strip (lower vessel_class_key)) oui_registry) [
      | none ↦ some false
      | some oui_string ↦ from_hex (remove_colons oui_string) >>= λ oui_bytes.
          let mac = target_mac_bytes oui_bytes device_id mainframe_id in
          some (frame_is_valid mac (wire (raw_ethernet_frame mac vessel_class_key)))
    ]

-- `execute_complete_network_matrix_audit`, over the keys of the registry.
unfoldable pub audit_classes : List (Text × Text) → Wire → List (Text × Text) → Option Bool
audit_classes oui_registry wire [] = some true
audit_classes oui_registry wire ((class_key, oui) ∷ l) = do
  single_check ← verify_tactical_handshake_frame oui_registry wire class_key 1 0
  rest ← audit_classes oui_registry wire l
  some (single_check && rest)

abbrev pub execute_complete_network_matrix_audit : List (Text × Text) → Wire → Option Bool
execute_complete_network_matrix_audit oui_registry wire =
    audit_classes oui_registry wire oui_registry
