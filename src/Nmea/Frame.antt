-- ===== src/Nmea/Frame.antt =====
-- Every framed payload passes the test, and the test accepts nothing else than a body, a star and
-- the body's checksum.
use univac.Base.{
  ℕ, ◌≡◌, refl, ap, ◌∙◌, ◌↔◌, true, false, not, List, [], ◌∷◌, ◌++◌, arith, all, all_mono,
}
use univac.Text.{Text, is_space, strip, strip_left, upper, upper_char, contains, split, equal}
use univac.Text.Laws.{
  equal_iff, equal_self, split_one, split-append, NoSpace, strip-NoSpace, strip_right-append,
  split-eq_two,
}
use univac.Text.Hex.{hex02, is_hex, hex02-is_hex}
use univac.Nmea.{fields, xor_from, checksum_of, frame, check_parts, validate_checksum}

-- Printed digits hold no whitespace, no star and no lower case.
is_hex-no_space : (c : ℕ) → is_hex c ≡ true → not (is_space c) ≡ true
unfolding is_space
is_hex-no_space c h = ground arith

pub hex02-NoSpace : (n : ℕ) → NoSpace (hex02 n)
hex02-NoSpace n = all_mono is_hex (λ c. not (is_space c)) is_hex-no_space (hex02 n) (hex02-is_hex n)

upper_hex : (s : Text) → all is_hex s ≡ true → upper s ≡ s
unfolding upper upper_char
upper_hex [] h = refl
upper_hex (c ∷ s) h = ground (arith, upper_hex s)

no_star_hex : (s : Text) → all is_hex s ≡ true → contains b'*' s ≡ false
unfolding contains
no_star_hex [] h = refl
no_star_hex (c ∷ s) h = ground (arith, no_star_hex s)

pub no_star-hex02 : (n : ℕ) → contains b'*' (hex02 n) ≡ false
no_star-hex02 n = no_star_hex (hex02 n) (hex02-is_hex n)

pub upper-strip-hex02 : (n : ℕ) → upper (strip (hex02 n)) ≡ hex02 n
upper-strip-hex02 n =
    rw (strip-NoSpace (hex02 n) (hex02-NoSpace n)) (upper_hex (hex02 n) (hex02-is_hex n))

-- The sentence that is left of a frame once `strip` has dropped its line end.
abbrev pub sentence : Text → Text
sentence payload = b'$' ∷ (payload ++ (b'*' ∷ checksum_of payload))

contains_star : (s t : Text) → contains b'*' (s ++ (b'*' ∷ t)) ≡ true
unfolding contains
contains_star [] t = ground arith
contains_star (c ∷ s) t = ground (arith, contains_star s t)

split-sentence :
    (body digits : Text)
    → contains b'*' body ≡ false
    → contains b'*' digits ≡ false
    → split b'*' (body ++ (b'*' ∷ digits)) ≡ body ∷ digits ∷ []
split-sentence body digits h k =
    split-append b'*' body digits h ∙ ap (◌∷◌ body) (split_one b'*' digits k)

-- On a body and one star the answer is the comparison of the checksum.
pub validate_checksum-parts :
    (body digits : Text)
    → contains b'*' body ≡ false
    → contains b'*' digits ≡ false
    → validate_checksum (b'$' ∷ (body ++ (b'*' ∷ digits)))
      ≡ equal (checksum_of body) (upper (strip digits))
unfolding validate_checksum contains
validate_checksum-parts body digits h k =
    ground (arith, split-sentence body digits h k, contains_star body digits)

pub validate_checksum-sentence :
    (payload : Text) → contains b'*' payload ≡ false → validate_checksum (sentence payload) ≡ true
unfolding checksum_of
validate_checksum-sentence payload h =
    validate_checksum-parts payload _ h (no_star-hex02 _) ∙ rw upper-strip-hex02 (equal_self _)

pub strip-frame : (payload : Text) → strip (frame payload) ≡ sentence payload
unfolding frame checksum_of strip strip_left is_space
strip-frame payload =
    strip_right-append (b'$' ∷ payload) b'*' (checksum_of payload) (13 ∷ 10 ∷ [])
      (hex02-NoSpace (xor_from 0 payload)) refl

-- Every sentence that a serializer frames is accepted, after the `strip` that every parser makes,
-- whatever the payload, if it holds no star.
pub validate_checksum-strip-frame :
    (payload : Text)
    → contains b'*' payload ≡ false
    → validate_checksum (strip (frame payload)) ≡ true
validate_checksum-strip-frame payload h = rw strip-frame (validate_checksum-sentence payload h)

validate_checksum_inv :
    (s : Text)
    → validate_checksum s ≡ true
    → (body : Text) × (digits : Text) × (s ≡ b'$' ∷ (body ++ (b'*' ∷ digits)))
      × (contains b'*' body ≡ false)
      × (contains b'*' digits ≡ false)
      × (checksum_of body ≡ upper (strip digits))
unfolding validate_checksum check_parts
validate_checksum_inv [] h = cc
validate_checksum_inv (c ∷ rest) h = parts (split b'*' rest) refl (ground arith) (ground arith)
  where
    parts :
        (ps : List Text)
        → split b'*' rest ≡ ps
        → c ≡ b'$'
        → check_parts ps ≡ true
        → (body : Text) × (digits : Text) × (c ∷ rest ≡ b'$' ∷ (body ++ (b'*' ∷ digits)))
          × (contains b'*' body ≡ false)
          × (contains b'*' digits ≡ false)
          × (checksum_of body ≡ upper (strip digits))
    parts [] e d h = cc
    parts (x ∷ []) e d h = cc
    parts (x ∷ y ∷ []) e d h =
        let (joined, nx, ny) = split-eq_two b'*' rest x y e in
        (x, y, ground arith, nx, ny, (equal_iff _ _).0 h)
    parts (x ∷ y ∷ z ∷ r) e d h = cc

-- The test accepts exactly the texts that are a dollar sign, a body and one star before digits
-- which, stripped and in upper case, are the checksum of the body.
pub validate_checksum_iff :
    (s : Text)
    → (validate_checksum s ≡ true) ↔ (
        (body : Text) × (digits : Text) × (s ≡ b'$' ∷ (body ++ (b'*' ∷ digits)))
        × (contains b'*' body ≡ false)
        × (contains b'*' digits ≡ false)
        × (checksum_of body ≡ upper (strip digits)))
validate_checksum_iff s = (
  validate_checksum_inv s,
  λ (body, digits, e, nb, nd, same).
      rw e (validate_checksum-parts body digits nb nd ∙ (equal_iff _ _).1 same),
)

-- The fields of a framed payload are those of the payload, the first with its dollar sign.
pub fields-sentence :
    (payload : Text)
    → contains b'*' payload ≡ false
    → fields (sentence payload) ≡ split b',' (b'$' ∷ payload)
unfolding fields checksum_of
fields-sentence payload h = rw (
    split-sentence (b'$' ∷ payload) (checksum_of payload) (unfold contains in ground arith)
      (no_star-hex02 (xor_from 0 payload)))
