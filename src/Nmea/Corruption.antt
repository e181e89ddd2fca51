-- ===== src/Nmea/Corruption.antt =====
-- The checksum detects a changed character.
use univac.Base.{
  ℕ, ◌<◌, ◌^◌, ◌≡◌, ◌≢◌, refl, sym, ◌∙◌, true, false, [], ◌∷◌, ◌++◌, arith, all, ltb, bit_xor, inl,
  inr, Bool-cases,
}
use univac.Base.Bits.{bit_xor_cancel_left, bit_xor_cancel_right, bit_xor-lt}
use univac.Text.{Text, contains, equal}
use univac.Text.Laws.{equal_iff}
use univac.Text.Hex.{hex02, hex02_injective}
use univac.Nmea.{xor_from, checksum_of, validate_checksum}
use univac.Nmea.Frame.{validate_checksum-parts, upper-strip-hex02, no_star-hex02}

-- `bytes.decode('ascii', errors='ignore')` leaves such a text.
abbrev pub IsAscii : Text → Type 0
IsAscii s = all (λ c. ltb c 128) s ≡ true

xor_from-append : (acc : ℕ) (s t : Text) → xor_from acc (s ++ t) ≡ xor_from (xor_from acc s) t
unfolding xor_from
xor_from-append acc [] t = refl
xor_from-append acc (c ∷ s) t = xor_from-append (bit_xor acc c) s t

xor_from-lt : (acc : ℕ) (s : Text) → acc < 128 → IsAscii s → xor_from acc s < 128
unfolding xor_from
xor_from-lt acc [] h k = h
xor_from-lt acc (c ∷ s) h k =
    let next : bit_xor acc c < 2 ^ 7 = bit_xor-lt 7 acc c h (ground arith) in
    xor_from-lt (bit_xor acc c) s next (ground arith)

xor_from_injective : (s : Text) (m n : ℕ) → xor_from m s ≡ xor_from n s → m ≡ n
unfolding xor_from
xor_from_injective [] m n e = e
xor_from_injective (c ∷ s) m n e =
    bit_xor_cancel_right c m n (xor_from_injective s (bit_xor m c) (bit_xor n c) e)

-- Two bodies that differ in one character have different sums.
pub xor_from_changed :
    (p q : Text) (a b : ℕ) → a ≢ b → xor_from 0 (p ++ (a ∷ q)) ≢ xor_from 0 (p ++ (b ∷ q))
xor_from_changed p q a b ne e =
    let sums = rw (xor_from-append 0 p (a ∷ q), xor_from-append 0 p (b ∷ q)) at e in
    ne (
      bit_xor_cancel_left (xor_from 0 p) a b (
        xor_from_injective q (bit_xor (xor_from 0 p) a) (bit_xor (xor_from 0 p) b)
          (unfold xor_from in sums)))

-- A framed sentence in which one character of the body was changed to another is refused, if
-- all characters are ASCII and the changed body holds no star.
pub validate_checksum_detects_change :
    (p q : Text) (a b : ℕ)
    → a ≢ b
    → IsAscii (p ++ (a ∷ q))
    → IsAscii (p ++ (b ∷ q))
    → contains b'*' (p ++ (b ∷ q)) ≡ false
    → validate_checksum (b'$' ∷ ((p ++ (b ∷ q)) ++ (b'*' ∷ checksum_of (p ++ (a ∷ q))))) ≡ false
unfolding checksum_of
validate_checksum_detects_change p q a b ne ascii_a ascii_b no_star =
    let sent = p ++ (a ∷ q) in
    let got = p ++ (b ∷ q) in
    let la = xor_from-lt 0 sent (omega arith) ascii_a in
    let lb = xor_from-lt 0 got (omega arith) ascii_b in
    validate_checksum-parts got (checksum_of sent) no_star (no_star-hex02 (xor_from 0 sent))
    ∙ rw (upper-strip-hex02 (xor_from 0 sent))
        (elim (Bool-cases (equal (hex02 (xor_from 0 got)) (hex02 (xor_from 0 sent)))) [
          | inl same ↦ absurd (
              xor_from_changed p q b a (λ e. ne (sym e))
                (hex02_injective (xor_from 0 got) (xor_from 0 sent) (omega arith) (omega arith)
                  ((equal_iff _ _).0 same)))
          | inr other ↦ other
        ])
