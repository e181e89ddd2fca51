-- ===== src/Base/Bits.antt =====
-- Laws of `bit_xor` and `bit_and` at variables: lowest digits, cancellation and bounds.
use Prim.Native.Nat.{
  ℕ, zero, suc, ◌+◌, ◌-◌, ◌*◌, ◌/◌, ◌%◌, ◌^◌, ◌≤◌, ◌<◌, bit_xor, bit_and, min, digits, differ,
  bit_xor-bitwise, bit_and-bitwise,
}
use mathlib.Core.Path.{◌≡◌, refl, sym, ap, ◌∙◌}
use native.Mathlib.Nat.{pow-suc}
use native.Mathlib.Omega.{arith}

-- The digits of a combination that is f on digits, and z where the first operand has run out.
module _ (z : ℕ → ℕ) (f : ℕ → ℕ → ℕ) where
  one_more_digit : (n a b : ℕ) → a ≤ n → digits z f (suc n) a b ≡ digits z f n a b
  one_more_digit zero zero b h = refl
  one_more_digit zero (suc a) b h = absurd (omega arith)
  one_more_digit (suc n) zero b h = refl
  one_more_digit (suc n) (suc a) b h = rw (one_more_digit n (suc a / 2) (b / 2) (omega arith))

  more_digits : (k n a b : ℕ) → a ≤ n → digits z f (k + n) a b ≡ digits z f n a b
  more_digits zero n a b h = let total : 0 + n ≡ n = omega arith in ap (λ k. digits z f k a b) total
  more_digits (suc k) n a b h =
      let total : suc k + n ≡ suc (k + n) = omega arith in
      ap (λ k. digits z f k a b) total
      ∙ one_more_digit (k + n) a b (omega arith)
      ∙ more_digits k n a b h

  -- As many digits as the first operand has ones are enough.
  enough_digits : (n m a b : ℕ) → a ≤ n → n ≤ m → digits z f m a b ≡ digits z f n a b
  enough_digits n m a b h le =
      let total : (m - n) + n ≡ m = omega arith in
      ap (λ k. digits z f k a b) (sym total) ∙ more_digits (m - n) n a b h

differ_bits : (p q : ℕ) → p < 2 → q < 2 → differ p q ≡ (p + q) % 2
differ_bits zero q hp hq = omega arith
differ_bits (suc zero) zero hp hq = refl
differ_bits (suc zero) (suc zero) hp hq = refl
differ_bits (suc zero) (suc (suc q)) hp hq = absurd (omega arith)
differ_bits (suc (suc p)) q hp hq = absurd (omega arith)

zero-bit_xor : (b : ℕ) → bit_xor 0 b ≡ b
zero-bit_xor b = bit_xor-bitwise 0 b

pub bit_xor_step : (a b : ℕ) → bit_xor a b ≡ bit_xor (a / 2) (b / 2) * 2 + (a % 2 + b % 2) % 2
bit_xor_step zero b = omega (arith, zero-bit_xor b, zero-bit_xor (b / 2))
bit_xor_step (suc a) b = omega (
  arith,
  bit_xor-bitwise (suc a) b,
  bit_xor-bitwise (suc a / 2) (b / 2),
  enough_digits (λ b. b) differ (suc a / 2) a (suc a / 2) (b / 2) (omega arith) (omega arith),
  differ_bits (suc a % 2) (b % 2) (omega arith) (omega arith),
)

cancel_left_fuel : (n c a b : ℕ) → c ≤ n → a ≤ n → b ≤ n → bit_xor c a ≡ bit_xor c b → a ≡ b
cancel_left_fuel zero c a b hc ha hb e = omega arith
cancel_left_fuel (suc n) c a b hc ha hb e =
    let halves : bit_xor (c / 2) (a / 2) ≡ bit_xor (c / 2) (b / 2) =
      omega (arith, bit_xor_step c a, bit_xor_step c b) in
    omega (
      arith,
      bit_xor_step c a,
      bit_xor_step c b,
      cancel_left_fuel n (c / 2) (a / 2) (b / 2) (omega arith) (omega arith) (omega arith) halves,
    )

-- A byte that is combined with the same prefix can be told from any other byte.
pub bit_xor_cancel_left : (c a b : ℕ) → bit_xor c a ≡ bit_xor c b → a ≡ b
bit_xor_cancel_left c a b =
    cancel_left_fuel (c + a + b) c a b (omega arith) (omega arith) (omega arith)

cancel_right_fuel : (n c a b : ℕ) → c ≤ n → a ≤ n → b ≤ n → bit_xor a c ≡ bit_xor b c → a ≡ b
cancel_right_fuel zero c a b hc ha hb e = omega arith
cancel_right_fuel (suc n) c a b hc ha hb e =
    let halves : bit_xor (a / 2) (c / 2) ≡ bit_xor (b / 2) (c / 2) =
      omega (arith, bit_xor_step a c, bit_xor_step b c) in
    omega (
      arith,
      bit_xor_step a c,
      bit_xor_step b c,
      cancel_right_fuel n (c / 2) (a / 2) (b / 2) (omega arith) (omega arith) (omega arith) halves,
    )

pub bit_xor_cancel_right : (c a b : ℕ) → bit_xor a c ≡ bit_xor b c → a ≡ b
bit_xor_cancel_right c a b =
    cancel_right_fuel (c + a + b) c a b (omega arith) (omega arith) (omega arith)

-- The result has no more digits than the longer operand.
pub bit_xor-lt : (k a b : ℕ) → a < 2 ^ k → b < 2 ^ k → bit_xor a b < 2 ^ k
bit_xor-lt zero a b ha hb =
    let ea : a ≡ 0 = omega arith in
    let eb : b ≡ 0 = omega arith in rw (ea, eb) (omega (arith, zero-bit_xor 0))
bit_xor-lt (suc k) a b ha hb =
    omega (arith, pow-suc 2 k, bit_xor_step a b, bit_xor-lt k (a / 2) (b / 2))

zero-bit_and : (b : ℕ) → bit_and 0 b ≡ 0
zero-bit_and b = bit_and-bitwise 0 b

min_bit : (p q : ℕ) → min p q ≤ q
min_bit zero zero = omega arith
min_bit zero (suc q) = omega arith
min_bit (suc p) zero = omega arith
min_bit (suc p) (suc q) = omega (arith, min_bit p q)

-- The digits of a masked number are at most the mask's.
bit_and_digits : (a b : ℕ) → bit_and a b ≤ bit_and (a / 2) (b / 2) * 2 + b % 2
bit_and_digits zero b = omega (arith, zero-bit_and b, zero-bit_and (b / 2))
bit_and_digits (suc a) b = omega (
  arith,
  bit_and-bitwise (suc a) b,
  bit_and-bitwise (suc a / 2) (b / 2),
  enough_digits (λ b. zero) min (suc a / 2) a (suc a / 2) (b / 2) (omega arith) (omega arith),
  min_bit (suc a % 2) (b % 2),
)

mask_bound_fuel : (n a b : ℕ) → a ≤ n → bit_and a b ≤ b
mask_bound_fuel zero a b h = let e : a ≡ 0 = omega arith in rw e (omega (arith, zero-bit_and b))
mask_bound_fuel (suc n) zero b h = omega (arith, zero-bit_and b)
mask_bound_fuel (suc n) (suc a) b h =
    omega (arith, bit_and_digits (suc a) b, mask_bound_fuel n (suc a / 2) (b / 2) (omega arith))

-- A masked word is not above its mask.
pub bit_and_le : (a b : ℕ) → bit_and a b ≤ b
bit_and_le a b = mask_bound_fuel a a b (omega arith)
