-- ===== src/Text/Utf8.antt =====
-- `bytes.decode('utf-8', errors='ignore')` on one byte string: the longest part that could begin a
-- character and does not is skipped, and so is a character that the end cuts off.
use univac.Base.{
  ℕ, zero, suc, ◌+◌, ◌-◌, ◌*◌, ◌≡◌, refl, sym, ap, ◌∙◌, Bool, true, false, ◌&&◌, ◌==◌, [], ◌∷◌,
  ◌++◌, leb, ltb, arith, if◌then◌else◌,
}
use mathlib.Core.List.{append_assoc}
use univac.Text.{Text}

-- Between two characters, or in front of a byte of a given range and of `more` further ones.
pub data Utf8State : Type 0 where
  ready : Utf8State
  expecting : (more lo hi value : ℕ) → Utf8State

abbrev pub is_ready : Utf8State → Bool
is_ready ready = true
is_ready (expecting more lo hi value) = false

abbrev pub between : ℕ → ℕ → ℕ → Bool
between lo hi b = leb lo b && leb b hi

unfoldable pub start_byte : ℕ → Text × Utf8State
start_byte b =
    if ltb b 128
    then (b ∷ [], ready)
    else if between 194 223 b
    then ([], expecting 0 128 191 (b - 192))
    else if between 224 239 b
    then ([], expecting 1 (if b == 224 then 160 else 128) (if b == 237 then 159 else 191) (b - 224))
    else if between 240 244 b
    then ([], expecting 2 (if b == 240 then 144 else 128) (if b == 244 then 143 else 191) (b - 240))
    else ([], ready)

abbrev pub continue_with : ℕ → ℕ → Text × Utf8State
continue_with zero value = (value ∷ [], ready)
continue_with (suc more) value = ([], expecting more 128 191 value)

unfoldable pub feed : Utf8State → ℕ → Text × Utf8State
feed ready b = start_byte b
feed (expecting more lo hi value) b =
    if between lo hi b then continue_with more (value * 64 + (b - 128)) else start_byte b

unfoldable pub decode_from : Utf8State → Text → Text
decode_from s [] = []
decode_from s (b ∷ bytes) = let (out, next) = feed s b in out ++ decode_from next bytes

unfoldable pub decode_utf8 : Text → Text
decode_utf8 bytes = decode_from ready bytes

abbrev pub state_after : Utf8State → Text → Utf8State
state_after s [] = s
state_after s (b ∷ bytes) = state_after (feed s b).1 bytes

-- The bytes do not end inside a character.
abbrev pub is_whole : Text → Bool
is_whole bytes = is_ready (state_after ready bytes)

decode_from-append :
    (s : Utf8State) (xs ys : Text)
    → decode_from s (xs ++ ys) ≡ decode_from s xs ++ decode_from (state_after s xs) ys
unfolding decode_from
decode_from-append s [] ys = refl
decode_from-append s (b ∷ xs) ys =
    let (out, next) = feed s b in
    ap (λ rest. out ++ rest) (decode_from-append next xs ys)
    ∙ sym (append_assoc out (decode_from next xs) (decode_from (state_after next xs) ys))

ready_lem : (s : Utf8State) → is_ready s ≡ true → s ≡ ready
ready_lem ready h = refl
ready_lem (expecting more lo hi value) h = ground arith

-- Bytes that end between two characters are decoded on their own.
pub decode_utf8-append :
    (xs ys : Text) → is_whole xs ≡ true → decode_utf8 (xs ++ ys) ≡ decode_utf8 xs ++ decode_utf8 ys
unfolding decode_utf8
decode_utf8-append xs ys h =
    decode_from-append ready xs ys
    ∙ ap (λ s. decode_from ready xs ++ decode_from s ys) (ready_lem (state_after ready xs) h)
