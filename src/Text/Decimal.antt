-- ===== src/Text/Decimal.antt =====
-- `str(n)` for a natural number.
use univac.Base.{
  ℕ, zero, suc, ◌+◌, ◌/◌, ◌%◌, ◌≡◌, refl, Bool, true, ◌&&◌, [], ◌∷◌, arith, ltb, leb, all,
  if◌then◌else◌,
}
use univac.Text.{Text}

-- The digits of `n` in front of `rest`; `n + 1` rounds are enough.
unfoldable pub decimal_onto : ℕ → ℕ → Text → Text
decimal_onto zero n rest = rest
decimal_onto (suc fuel) n rest =
    let more = decimal_onto fuel (n / 10) ((n % 10 + 48) ∷ rest) in
    if ltb n 10 then (n + 48) ∷ rest else more

unfoldable pub decimal : ℕ → Text
unfolding decimal_onto
decimal n = decimal_onto (n + 1) n []

abbrev pub is_digit : ℕ → Bool
is_digit c = leb b'0' c && leb c b'9'

decimal_onto-is_digit :
    (fuel n : ℕ) (rest : Text)
    → all is_digit rest ≡ true
    → all is_digit (decimal_onto fuel n rest) ≡ true
unfolding decimal_onto
decimal_onto-is_digit zero n rest h = h
decimal_onto-is_digit (suc fuel) n rest h =
    ground (arith, decimal_onto-is_digit fuel (n / 10) ((n % 10 + 48) ∷ rest))

pub decimal-is_digit : (n : ℕ) → all is_digit (decimal n) ≡ true
unfolding decimal
decimal-is_digit n = decimal_onto-is_digit (n + 1) n [] refl
