-- ===== src/Text/Number.antt =====
-- `int(s, 16)` on ASCII text: surrounding whitespace, a sign, a prefix `0x` and single underscores
-- between digits are allowed. And the test of one bit of a Python integer.
use univac.Base.{
  ℕ, ◌+◌, ◌-◌, ◌*◌, ◌/◌, ◌%◌, ◌^◌, Bool, true, false, ◌&&◌, ◌||◌, Option, none, some, [], ◌∷◌, leb,
  ◌==◌, if◌then◌else◌,
}
use univac.Base.Int.{ℤ, pos, negsuc, sub_ℕ}
use univac.Text.{Text, strip, is_space, strip_left, strip_right}

unfoldable pub hex_digit_value : ℕ → Option ℕ
hex_digit_value c =
    if leb b'0' c && leb c b'9'
    then some (c - 48)
    else if leb b'a' c && leb c b'f'
    then some (c - 87)
    else if leb b'A' c && leb c b'F'
    then some (c - 55)
    else none

-- Digits behind `acc`; the flag says that the character before was a digit.
unfoldable pub hex_digits : ℕ → Bool → Text → Option ℕ
unfolding hex_digit_value
hex_digits acc seen [] = if seen then some acc else none
hex_digits acc seen (c ∷ s) =
    let after_underscore = hex_digits acc false s in
    let after_digit : ℕ → Option ℕ = λ d. hex_digits (acc * 16 + d) true s in
    let digit : Option ℕ = elim (hex_digit_value c) [ none ↦ none | some d ↦ after_digit d ] in
    if c == b'_' then (if seen then after_underscore else none) else digit

unfoldable pub unsigned_hex : Text → Option ℕ
unfolding hex_digits
unsigned_hex (z ∷ x ∷ u ∷ s) =
    if z == b'0' && (x == b'x' || x == b'X')
    then (if u == b'_' then hex_digits 0 false s else hex_digits 0 false (u ∷ s))
    else hex_digits 0 false (z ∷ x ∷ u ∷ s)
unsigned_hex s = hex_digits 0 false s

abbrev positive : Option ℕ → Option ℤ
positive none = none
positive (some n) = some (pos n)

abbrev negative : Option ℕ → Option ℤ
negative none = none
negative (some n) = some (sub_ℕ 0 n)

signed_hex : Text → Option ℤ
unfolding unsigned_hex
signed_hex [] = none
signed_hex (c ∷ s) =
    if c == b'-'
    then negative (unsigned_hex s)
    else if c == b'+'
    then positive (unsigned_hex s)
    else positive (unsigned_hex (c ∷ s))

-- int(s, 16); none is ValueError.
unfoldable pub int16 : Text → Option ℤ
unfolding signed_hex strip strip_left strip_right is_space
int16 s = signed_hex (strip s)

-- `n & (1 << k)` is not zero, in two's complement for a negative n.
abbrev pub has_bit : ℕ → ℤ → Bool
has_bit k (pos n) = n / 2 ^ k % 2 == 1
has_bit k (negsuc n) = n / 2 ^ k % 2 == 0
