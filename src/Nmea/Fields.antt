-- ===== src/Nmea/Fields.antt =====
-- Fields survive the way over the wire: what a serializer joins and frames, a parser strips, tests
-- and splits into the same fields.
use univac.Base.{ℕ, ◌≡◌, refl, ap, ◌∙◌, true, false, List, [], ◌∷◌, ◌++◌, arith, all, all_mono}
use univac.Text.{Text, strip, contains, split, join}
use univac.Text.Laws.{contains-append, split_one, split-append}
use univac.Text.Decimal.{decimal, is_digit, decimal-is_digit}
use univac.Floats.{is_float_char}
use univac.Nmea.{frame, fields, validate_checksum, payload_of, is_field}
use univac.Nmea.Frame.{strip-frame, validate_checksum-sentence, fields-sentence}

-- Every text of the list is a field.
abbrev pub AllFields : List Text → Type 0
AllFields fs = all is_field fs ≡ true

no_comma : (s : Text) → is_field s ≡ true → contains b',' s ≡ false
unfolding is_field
no_comma s h = ground arith

no_star : (s : Text) → is_field s ≡ true → contains b'*' s ≡ false
unfolding is_field
no_star s h = ground arith

abbrev NoStar : Text → Type 0
NoStar s = contains b'*' s ≡ false

comma_first : (s : Text) → contains b'*' (b',' ∷ s) ≡ contains b'*' s
unfolding contains
comma_first s = ground arith

payload_of-NoStar : (fs : List Text) → AllFields fs → NoStar (payload_of fs)
unfolding join
payload_of-NoStar [] h = unfold contains in refl
payload_of-NoStar (x ∷ []) h = no_star x (ground arith)
payload_of-NoStar (x ∷ y ∷ l) h = ground (
  arith,
  no_star x,
  contains-append b'*' x (b',' ∷ payload_of (y ∷ l)),
  comma_first (payload_of (y ∷ l)),
  payload_of-NoStar (y ∷ l),
)

split-payload_of :
    (x : Text) (l : List Text)
    → contains b',' x ≡ false
    → AllFields l
    → split b',' (payload_of (x ∷ l)) ≡ x ∷ l
unfolding join
split-payload_of x [] h k = split_one b',' x h
split-payload_of x (y ∷ l) h k =
    split-append b',' x (payload_of (y ∷ l)) h
    ∙ ap (◌∷◌ x) (split-payload_of y l (no_comma y (ground arith)) (ground arith))

dollar-payload_of :
    (x : Text) (l : List Text) → b'$' ∷ payload_of (x ∷ l) ≡ payload_of ((b'$' ∷ x) ∷ l)
unfolding join
dollar-payload_of x [] = refl
dollar-payload_of x (y ∷ l) = refl

no_comma_dollar : (x : Text) → is_field x ≡ true → contains b',' (b'$' ∷ x) ≡ false
unfolding contains is_field
no_comma_dollar x h = ground arith

-- A framed list of fields passes the test of the checksum.
pub validate_checksum-payload :
    (fs : List Text) → AllFields fs → validate_checksum (strip (frame (payload_of fs))) ≡ true
validate_checksum-payload fs h =
    rw strip-frame (validate_checksum-sentence (payload_of fs) (payload_of-NoStar fs h))

-- A list of fields, none with a comma or a star in it, that was joined and framed is split
-- back into the same fields, the first behind its dollar sign.
pub fields-payload :
    (x : Text) (l : List Text)
    → AllFields (x ∷ l)
    → fields (strip (frame (payload_of (x ∷ l)))) ≡ (b'$' ∷ x) ∷ l
fields-payload x l h = rw strip-frame (
    fields-sentence (payload_of (x ∷ l)) (payload_of-NoStar (x ∷ l) h)
    ∙ rw dollar-payload_of
        (split-payload_of (b'$' ∷ x) l (no_comma_dollar x (ground arith)) (ground arith)))

-- A printed number is a field.
pub is_field-number : (s : Text) → all is_float_char s ≡ true → is_field s ≡ true
unfolding is_field contains
is_field-number [] h = refl
is_field-number (c ∷ s) h = ground (arith, is_field-number s)

-- Texts without separators stay so when they are joined.
pub is_field-append :
    (s t : Text) → is_field s ≡ true → is_field t ≡ true → is_field (s ++ t) ≡ true
unfolding is_field
is_field-append s t h k = ground (arith, contains-append b',' s t, contains-append b'*' s t)

-- So is a printed integer.
pub is_field-decimal : (n : ℕ) → is_field (decimal n) ≡ true
is_field-decimal n =
    is_field-number (decimal n)
      (all_mono is_digit is_float_char digit-float (decimal n) (decimal-is_digit n))
  where
    digit-float : (c : ℕ) → is_digit c ≡ true → is_float_char c ≡ true
    digit-float c h = ground arith
