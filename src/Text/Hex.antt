-- ===== src/Text/Hex.antt =====
-- `f"{n:02X}"`: upper-case hexadecimal digits, at least two.
use univac.Base.{
  ℕ, zero, suc, ◌+◌, ◌-◌, ◌/◌, ◌%◌, Bool, true, ◌&&◌, ◌||◌, [], ◌∷◌, ltb, leb, if◌then◌else◌, ◌*◌,
  sym, ap, ◌∙◌, all, ◌≡◌, arith, ◌<◌, ◌≤◌, inl, inr, Bool-cases,
}
use univac.Text.{Text}

unfoldable pub hex_digit : ℕ → ℕ
hex_digit d = if ltb d 10 then d + 48 else d + 55

-- The digits of `n` in front of `rest`; `n + 1` rounds are enough.
unfoldable pub hex_onto : ℕ → ℕ → Text → Text
unfolding hex_digit
hex_onto zero n rest = rest
hex_onto (suc fuel) n rest =
    let more = hex_onto fuel (n / 16) (hex_digit (n % 16) ∷ rest) in
    if ltb n 16 then hex_digit n ∷ rest else more

-- f"{n:02X}"
unfoldable pub hex02 : ℕ → Text
unfolding hex_onto
hex02 n = if ltb n 16 then b'0' ∷ hex_digit n ∷ [] else hex_onto (n + 1) n []

-- What every digit satisfies: it is `0`-`9` or `A`-`F`.
abbrev pub is_hex : ℕ → Bool
is_hex c = leb b'0' c && leb c b'9' || leb b'A' c && leb c b'F'

pub hex_digit-is_hex : (d : ℕ) → d < 16 → is_hex (hex_digit d) ≡ true
unfolding hex_digit
hex_digit-is_hex d h = ground arith

hex_onto-is_hex :
    (fuel n : ℕ) (rest : Text) → all is_hex rest ≡ true → all is_hex (hex_onto fuel n rest) ≡ true
unfolding hex_onto
hex_onto-is_hex zero n rest h = h
hex_onto-is_hex (suc fuel) n rest h = ground (
  arith,
  hex_digit-is_hex n,
  hex_digit-is_hex (n % 16),
  hex_onto-is_hex fuel (n / 16) (hex_digit (n % 16) ∷ rest),
)

-- Whatever the number, the printed digits are hexadecimal digits.
pub hex02-is_hex : (n : ℕ) → all is_hex (hex02 n) ≡ true
unfolding hex02
hex02-is_hex n = ground (arith, hex_digit-is_hex n, hex_onto-is_hex (n + 1) n [])

hex_value : ℕ → ℕ
hex_value c = if ltb c 58 then c - 48 else c - 55

hex02_value : Text → ℕ
hex02_value (a ∷ b ∷ []) = hex_value a * 16 + hex_value b
hex02_value _ = 0

hex_value-hex_digit : (d : ℕ) → d < 16 → hex_value (hex_digit d) ≡ d
unfolding hex_value hex_digit
hex_value-hex_digit d h = ground arith

hex_onto-last :
    (fuel n : ℕ) (rest : Text) → n < 16 → hex_onto (suc fuel) n rest ≡ hex_digit n ∷ rest
unfolding hex_onto
hex_onto-last fuel n rest h = ground arith

hex_onto-two :
    (fuel n : ℕ)
    → 16 ≤ n
    → n < 256
    → hex_onto (suc (suc fuel)) n [] ≡ hex_digit (n / 16) ∷ hex_digit (n % 16) ∷ []
unfolding hex_onto
hex_onto-two fuel n low high = ground (arith, hex_onto-last fuel (n / 16) (hex_digit (n % 16) ∷ []))

-- A byte has two digits.
pub hex02-two : (n : ℕ) → n < 256 → hex02 n ≡ hex_digit (n / 16) ∷ hex_digit (n % 16) ∷ []
unfolding hex02
hex02-two n h = elim (Bool-cases (ltb n 16)) [
  | inl small ↦
      let high : n / 16 ≡ 0 = ground arith in
      let low : n % 16 ≡ n = ground arith in rw (small, high, low)
  | inr large ↦
      let fuel : n + 1 ≡ suc (suc (n - 1)) = ground arith in
      rw (large, fuel) (hex_onto-two (n - 1) n (ground arith) h)
]

hex02_value-hex02 : (n : ℕ) → n < 256 → hex02_value (hex02 n) ≡ n
unfolding hex02_value
hex02_value-hex02 n h =
    ap hex02_value (hex02-two n h)
    ∙ omega (
      arith,
      hex_value-hex_digit (n / 16) (omega arith),
      hex_value-hex_digit (n % 16) (omega arith),
    )

-- Two bytes with the same digits are the same byte.
pub hex02_injective : (m n : ℕ) → m < 256 → n < 256 → hex02 m ≡ hex02 n → m ≡ n
hex02_injective m n hm hn e =
    sym (hex02_value-hex02 m hm) ∙ ap hex02_value e ∙ hex02_value-hex02 n hn
