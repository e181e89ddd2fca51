-- ===== src/Config/Echo.antt =====
-- The handshake on a wire that echoes every frame, as a loopback plug does.
use univac.Base.{
  ℕ, zero, suc, ◌+◌, ◌≤◌, ◌≡◌, ◌↔◌, refl, ap, sym, ◌∙◌, Bool, true, ◌&&◌, Option, none, some, List,
  [], ◌∷◌, ◌++◌, take, length, length-append, arith, ◌>>=◌,
}
use univac.Text.{Text, strip, lower}
use univac.Text.Laws.{equal_iff}
use univac.Config.Profile.{lookup}
use univac.Config.Handshake.{
  inbound_packet, Wire, remove_colons, from_hex, target_mac_bytes, raw_ethernet_frame,
  frame_is_valid, verify_tactical_handshake_frame, audit_classes,
  execute_complete_network_matrix_audit,
}

take_all : (xs ys : List ℕ) → take (length xs) (xs ++ ys) ≡ xs
take_all [] ys = refl
take_all (x ∷ xs) ys = ap (◌∷◌ x) (take_all xs ys)

length-take : (n : ℕ) (xs : List ℕ) → n ≤ length xs → length (take n xs) ≡ n
length-take zero xs h = refl
length-take (suc n) [] h = ground arith
length-take (suc n) (x ∷ xs) h = ground (arith, length-take n xs)

length-mac :
    (oui : List ℕ) (device mainframe : ℕ)
    → length (target_mac_bytes oui device mainframe) ≡ length oui + 3
unfolding target_mac_bytes
length-mac oui device mainframe = length-append oui _

-- The first six bytes of a frame with at least six bytes behind the target.
take_six_iff :
    (mac rest : List ℕ) → 6 ≤ length rest → (take 6 (mac ++ rest) ≡ mac) ↔ (length mac ≡ 6)
take_six_iff mac rest h = (
  λ e. ap length (sym e) ∙ length-take 6 (mac ++ rest) (ground (arith, length-append mac rest)),
  λ e. ap (λ n. take n (mac ++ rest)) (sym e) ∙ take_all mac rest,
)

abbrev pub echo : Wire
echo frame = inbound_packet frame

behind_target : Text → List ℕ
behind_target key = raw_ethernet_frame [] key

behind_target-length : (key : Text) → 6 ≤ length (behind_target key)
unfolding behind_target raw_ethernet_frame
behind_target-length key = ground arith

frame_is_valid-echo :
    (oui : List ℕ) (key : Text) (device mainframe : ℕ)
    → let mac = target_mac_bytes oui device mainframe in
      (frame_is_valid mac (echo (raw_ethernet_frame mac key)) ≡ true) ↔ (length oui ≡ 3)
unfolding frame_is_valid raw_ethernet_frame behind_target
frame_is_valid-echo oui key device mainframe =
    let mac = target_mac_bytes oui device mainframe in
    ground (
      arith,
      equal_iff (take 6 (raw_ethernet_frame mac key)) mac,
      take_six_iff mac (behind_target key) (behind_target-length key),
      length-mac oui device mainframe,
    )

some_iff : {b : Bool} {P : Type 0} → (b ≡ true) ↔ P → (some b ≡ some true) ↔ P
some_iff {b = b} h = ground (arith, h)

verify-known :
    (registry : List (Text × Text)) (wire : Wire) (key : Text) (device mainframe : ℕ)
    (oui_string : Text) (oui : List ℕ)
    → lookup (strip (lower key)) registry ≡ some oui_string
    → from_hex (remove_colons oui_string) ≡ some oui
    → let mac = target_mac_bytes oui device mainframe in
      verify_tactical_handshake_frame registry wire key device mainframe
      ≡ some (frame_is_valid mac (wire (raw_ethernet_frame mac key)))
unfolding verify_tactical_handshake_frame
verify-known registry wire key device mainframe oui_string oui h k = ground arith

-- On an echoing wire, for a class of the registry whose prefix is hexadecimal: the handshake passes
-- exactly when the prefix has three bytes, whatever the two identifiers are.
pub verify_tactical_handshake_frame-echo_iff :
    (registry : List (Text × Text)) (key : Text) (device mainframe : ℕ) (oui_string : Text)
    (oui : List ℕ)
    → lookup (strip (lower key)) registry ≡ some oui_string
    → from_hex (remove_colons oui_string) ≡ some oui
    → (verify_tactical_handshake_frame registry echo key device mainframe ≡ some true)
      ↔ (length oui ≡ 3)
verify_tactical_handshake_frame-echo_iff registry key device mainframe oui_string oui h k =
    rw (verify-known registry echo key device mainframe oui_string oui h k)
      (some_iff (frame_is_valid-echo oui key device mainframe))

-- Every class passes on its own.
abbrev pub AllPass : List (Text × Text) → Wire → List (Text × Text) → Type 0
AllPass registry wire [] = Unit
AllPass registry wire ((key, oui) ∷ l) =
    (verify_tactical_handshake_frame registry wire key 1 0 ≡ some true) × AllPass registry wire l

both_true :
    (o p : Option Bool)
    → ((o >>= λ a. p >>= λ b. some (a && b)) ≡ some true) ↔ ((o ≡ some true) × (p ≡ some true))
both_true none p = ground arith
both_true (some a) none = ground arith
both_true (some a) (some b) = ground arith

audit_classes_iff :
    (registry : List (Text × Text)) (wire : Wire) (l : List (Text × Text))
    → (audit_classes registry wire l ≡ some true) ↔ AllPass registry wire l
unfolding audit_classes
audit_classes_iff registry wire [] = (λ h. tt, λ h. refl)
audit_classes_iff registry wire ((key, oui) ∷ l) =
    let rest = audit_classes_iff registry wire l in
    let split_ =
      both_true (verify_tactical_handshake_frame registry wire key 1 0)
        (audit_classes registry wire l) in
    (λ h. ((split_.0 h).0, rest.0 (split_.0 h).1), λ h. split_.1 (h.0, rest.1 h.1))

-- The audit of the registry is passed exactly when the handshake of each of its classes passes for
-- device 1 on mainframe 0; with one class that fails, or whose prefix is no hexadecimal text, it
-- is not passed.
pub execute_complete_network_matrix_audit_iff :
    (registry : List (Text × Text)) (wire : Wire)
    → (execute_complete_network_matrix_audit registry wire ≡ some true)
      ↔ AllPass registry wire registry
execute_complete_network_matrix_audit_iff registry wire = audit_classes_iff registry wire registry
