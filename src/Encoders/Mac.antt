-- ===== src/Encoders/Mac.antt =====
-- network_layer/univac_mac_aligner.py: the address token of the hardware handshake. The arguments are
-- integers of any sign; the time stamp of the state is left out.
use Prim.Native.Nat.{bit_or}
use univac.Base.{
  ℕ, zero, suc, ◌+◌, ◌*◌, ◌%◌, ◌≤◌, ◌<◌, ◌≡◌, refl, ap, Bool, true, ◌∷◌, ◌++◌, arith, length,
  length-append, ltb, ◌==◌, if◌then◌else◌,
}
use univac.Base.Int.{ℤ, pos, negsuc}
use univac.Text.{Text, codes, strip, upper, equal}
use univac.Text.Hex.{hex02, hex02-two}

pub record AlignmentState : Type 0 where
  pub target_vessel_class : Text
  pub computed_alignment_mac : Text
  pub hardware_lock_secured : Bool

-- `self.vessel_oui_catalog.get(key, '00:00:A3')`
unfoldable pub oui_prefix : Text → Text
oui_prefix key =
    if equal key (codes "EARLY_AEGIS_CRUISER")
    then codes "00:00:A3"
    else if equal key (codes "EARLY_AEGIS_DESTROYER")
    then codes "00:01:4A"
    else if equal key (codes "ENTERPRISE_CARRIER")
    then codes "00:1D:6E"
    else if equal key (codes "PRE_AEGIS_COMBATTANT")
    then codes "00:50:2A"
    else if equal key (codes "PRE_AEGIS_AUXILIARY")
    then codes "00:D0:6B"
    else codes "00:00:A3"

-- max(0, min(top, x))
unfoldable pub bounded : ℕ → ℤ → ℕ
bounded top (pos n) = if ltb n top then n else top
bounded top (negsuc n) = 0

-- (bit_2 << 2) | (bit_1 << 1) | bit_0
unfoldable pub octet_6 : ℕ → ℕ → ℕ
octet_6 bounded_device bounded_mainframe =
    let bit_0 = bounded_device % 2 in
    let bit_1 = bounded_mainframe % 2 in
    let bit_2 = bit_0 in bit_or (bit_or (bit_2 * 4) (bit_1 * 2)) bit_0

-- f"{oui_prefix}:{octet_4_hex}:{octet_5_hex}:{octet_6_hex}"
unfoldable pub compiled_mac : Text → ℕ → ℕ → ℕ → Text
compiled_mac oui depth port last =
    oui ++ (b':' ∷ (hex02 depth ++ (b':' ∷ (hex02 port ++ (b':' ∷ hex02 last)))))

unfoldable pub compute_lowest_possible_handshake_mac : Text → ℤ → ℤ → ℤ → ℤ → AlignmentState
unfolding octet_6 bounded compiled_mac
compute_lowest_possible_handshake_mac vessel_class_key device_id mainframe_id switch_depth
      switch_port =
    let sanitized_key = strip (upper vessel_class_key) in
    let bounded_device = bounded 14 device_id in
    let bounded_mainframe = bounded 3 mainframe_id in
    let bit_0 = bounded_device % 2 in
    let bit_2 = bit_0 in
    record {
      target_vessel_class = sanitized_key;
      computed_alignment_mac =
          compiled_mac (oui_prefix sanitized_key) (bounded 255 switch_depth)
            (bounded 254 switch_port) (octet_6 bounded_device bounded_mainframe);
      hardware_lock_secured = bit_0 == bit_2;
    }

pub bounded_le : (top : ℕ) (x : ℤ) → bounded top x ≤ top
unfolding bounded
bounded_le top x = ground arith

bit_pair : (a b : ℕ) → a < 2 → b < 2 → bit_or (bit_or (a * 4) (b * 2)) a ≡ a * 5 + b * 2
bit_pair zero zero ha hb = refl
bit_pair zero (suc zero) ha hb = refl
bit_pair (suc zero) zero ha hb = refl
bit_pair (suc zero) (suc zero) ha hb = refl
bit_pair zero (suc (suc b)) ha hb = absurd (omega arith)
bit_pair (suc zero) (suc (suc b)) ha hb = absurd (omega arith)
bit_pair (suc (suc a)) b ha hb = absurd (omega arith)

-- The last octet holds the device's lowest bit twice and the mainframe's between them.
pub octet_6_lem :
    (device mainframe : ℕ) → octet_6 device mainframe ≡ device % 2 * 5 + mainframe % 2 * 2
unfolding octet_6
octet_6_lem device mainframe = bit_pair (device % 2) (mainframe % 2) (omega arith) (omega arith)

oui_prefix-length : (key : Text) → length (oui_prefix key) ≡ 8
unfolding oui_prefix
oui_prefix-length key = ground arith

hex02-length : (n : ℕ) → n < 256 → length (hex02 n) ≡ 2
hex02-length n h = ap length (hex02-two n h)

compiled_mac-length :
    (key : Text) (depth port last : ℕ)
    → depth < 256
    → port < 256
    → last < 256
    → length (compiled_mac (oui_prefix key) depth port last) ≡ 17
unfolding compiled_mac
compiled_mac-length key depth port last hd hp hl = simp (
  length-append (oui_prefix key)
      (b':' ∷ (hex02 depth ++ (b':' ∷ (hex02 port ++ (b':' ∷ hex02 last))))),
  length-append (hex02 depth) (b':' ∷ (hex02 port ++ (b':' ∷ hex02 last))),
  length-append (hex02 port) (b':' ∷ hex02 last),
  oui_prefix-length key,
  hex02-length depth hd,
  hex02-length port hp,
  hex02-length last hl,
)

self_equal : (n : ℕ) → n == n ≡ true
self_equal n = ground arith

-- Whatever is asked, negative or too large numbers included, the token is an address of 17
-- characters: the vessel's prefix, then the clamped switch, the clamped port and the device's and
-- mainframe's bits, each in two hexadecimal digits. The lock is always reported as secured: it
-- compares the device's bit with its own copy.
pub compute_lowest_possible_handshake_mac_lem :
    (vessel : Text) (device mainframe depth port : ℤ)
    → let s = compute_lowest_possible_handshake_mac vessel device mainframe depth port in
      let last = bounded 14 device % 2 * 5 + bounded 3 mainframe % 2 * 2 in
      (s.computed_alignment_mac
        ≡ compiled_mac
            (oui_prefix (strip (upper vessel)))
            (bounded 255 depth)
            (bounded 254 port)
            last)
      × (length s.computed_alignment_mac ≡ 17)
      × (s.hardware_lock_secured ≡ true)
unfolding compute_lowest_possible_handshake_mac
compute_lowest_possible_handshake_mac_lem vessel device mainframe depth port =
    let d = bounded 14 device in
    let m = bounded 3 mainframe in
    let last = octet_6_lem d m in
    let bd = bounded_le 255 depth in
    let bp = bounded_le 254 port in
    (
      ap (compiled_mac (oui_prefix (strip (upper vessel))) (bounded 255 depth) (bounded 254 port))
          last,
      compiled_mac-length (strip (upper vessel)) (bounded 255 depth) (bounded 254 port)
          (octet_6 d m) (omega arith) (omega arith) (omega arith),
      self_equal (d % 2),
    )
