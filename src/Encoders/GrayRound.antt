-- ===== src/Encoders/GrayRound.antt =====
-- The decoder undoes the reflected Gray code, whatever the count and the resolution.
use univac.Base.{
  ℕ, zero, suc, ◌+◌, ◌*◌, ◌/◌, ◌^◌, ◌≤◌, ◌<◌, ◌≡◌, refl, sym, ap, ◌∙◌, bit_xor, arith, ◌==◌,
  Bool-cases, inl, inr, ==_iff,
}
use native.Mathlib.Nat.{add-mul-mod_self_right, mod-eq_of_lt}
use univac.Base.Bits.{bit_xor_step, bit_xor-lt}
use univac.Floats.{Floating}
use univac.Encoders.Gray.{shift_loop, gray_to_binary, decode_cray_gray_word}

xor_halves : (a b : ℕ) → bit_xor a b / 2 ≡ bit_xor (a / 2) (b / 2)
xor_halves a b = omega (arith, bit_xor_step a b)

xor_assoc_fuel :
    (n a b c : ℕ) → a ≤ n → b ≤ n → c ≤ n → bit_xor (bit_xor a b) c ≡ bit_xor a (bit_xor b c)
xor_assoc_fuel zero a b c ha hb hc =
    let ea : a ≡ 0 = omega arith in
    let eb : b ≡ 0 = omega arith in let ec : c ≡ 0 = omega arith in rw (ea, eb, ec)
xor_assoc_fuel (suc n) a b c ha hb hc =
    let halves : bit_xor (bit_xor a b / 2) (c / 2) ≡ bit_xor (a / 2) (bit_xor b c / 2) =
      rw (xor_halves a b, xor_halves b c)
        (xor_assoc_fuel n (a / 2) (b / 2) (c / 2) (omega arith) (omega arith) (omega arith)) in
    omega (
      arith,
      bit_xor_step a b,
      bit_xor_step b c,
      bit_xor_step (bit_xor a b) c,
      bit_xor_step a (bit_xor b c),
    )

xor_assoc : (a b c : ℕ) → bit_xor (bit_xor a b) c ≡ bit_xor a (bit_xor b c)
xor_assoc a b c = xor_assoc_fuel (a + b + c) a b c (omega arith) (omega arith) (omega arith)

xor_twice_fuel : (n a b : ℕ) → a ≤ n → b ≤ n → bit_xor (bit_xor a b) b ≡ a
xor_twice_fuel zero a b ha hb =
    let ea : a ≡ 0 = omega arith in let eb : b ≡ 0 = omega arith in rw (ea, eb)
xor_twice_fuel (suc n) a b ha hb =
    let halves : bit_xor (bit_xor a b / 2) (b / 2) ≡ a / 2 =
      rw (xor_halves a b) (xor_twice_fuel n (a / 2) (b / 2) (omega arith) (omega arith)) in
    omega (arith, bit_xor_step a b, bit_xor_step (bit_xor a b) b)

xor_twice : (a b : ℕ) → bit_xor (bit_xor a b) b ≡ a
xor_twice a b = xor_twice_fuel (a + b) a b (omega arith) (omega arith)

xor_zero_fuel : (n a : ℕ) → a ≤ n → bit_xor a 0 ≡ a
xor_zero_fuel zero a h = let ea : a ≡ 0 = omega arith in rw ea
xor_zero_fuel (suc n) a h = omega (arith, bit_xor_step a 0, xor_zero_fuel n (a / 2) (omega arith))

-- The reflected Gray code of a count.
abbrev pub gray_code : ℕ → ℕ
gray_code m = bit_xor m (m / 2)

gray_code-half : (m : ℕ) → gray_code m / 2 ≡ gray_code (m / 2)
gray_code-half m = xor_halves m (m / 2)

-- The code has the count's highest digit.
gray_code_large : (n m : ℕ) → m ≤ n → 0 < m → m + 1 ≤ gray_code m * 2
gray_code_large zero m h p = absurd (omega arith)
gray_code_large (suc n) m h p = elim (Bool-cases (m == 1)) [
  | inl one ↦ rw ((==_iff m 1).0 one) (omega arith)
  | inr more ↦
      let high : 0 < m / 2 = ground (arith, ==_iff m 1) in
      omega (arith, bit_xor_step m (m / 2), gray_code_large n (m / 2) (omega arith) high)
]

gray_code_zero : (m : ℕ) → gray_code m ≡ 0 → m ≡ 0
gray_code_zero zero e = refl
gray_code_zero (suc m) e =
    let large = gray_code_large (suc m) (suc m) (omega arith) (omega arith) in absurd (omega arith)

shift_loop-gray_code :
    (fuel acc m : ℕ) → m / 2 ≤ fuel → shift_loop fuel acc (gray_code m) ≡ bit_xor acc (m / 2)
unfolding shift_loop
shift_loop-gray_code zero acc m h =
    let none_left : m / 2 ≡ 0 = omega arith in
    rw none_left (sym (xor_zero_fuel acc acc (omega arith)))
shift_loop-gray_code (suc fuel) acc m h = elim (Bool-cases (gray_code (m / 2) == 0)) [
  | inl done ↦
      let last = gray_code_zero (m / 2) ((==_iff (gray_code (m / 2)) 0).0 done) in
      rw (gray_code-half m, done, last) (sym (xor_zero_fuel acc acc (omega arith)))
  | inr more ↦
      rw (gray_code-half m, more)
        (shift_loop-gray_code fuel (bit_xor acc (gray_code (m / 2))) (m / 2) (omega arith)
          ∙ xor_assoc acc (gray_code (m / 2)) (m / 2 / 2)
          ∙ ap (bit_xor acc) (xor_twice (m / 2) (m / 2 / 2)))
]

gray_to_binary-gray_code : (m : ℕ) → gray_to_binary (gray_code m) ≡ m
unfolding gray_to_binary
gray_to_binary-gray_code zero = refl
gray_to_binary-gray_code (suc m) =
    let large = gray_code_large (suc m) (suc m) (omega arith) (omega arith) in
    shift_loop-gray_code (gray_code (suc m)) (gray_code (suc m)) (suc m) (omega arith)
    ∙ xor_twice (suc m) (suc m / 2)

-- A shaft that stands at a count below 2 ^ k is decoded to that count from its reflected Gray
-- code, whatever the wires above the resolution carry.
pub decode_cray_gray_word-gray_code :
    {F : Type 0} (fl : Floating F) (k m bleed : ℕ)
    → m < 2 ^ k
    → (decode_cray_gray_word {F = F} ⦃fl = fl⦄
        (gray_code m + bleed * 2 ^ k)
        k).decoded_binary_integer
      ≡ m
unfolding decode_cray_gray_word
decode_cray_gray_word-gray_code fl k m bleed h =
    let code : gray_code m < 2 ^ k = bit_xor-lt k m (m / 2) h (omega arith) in
    ap gray_to_binary (add-mul-mod_self_right (gray_code m) bleed (2 ^ k) ∙ mod-eq_of_lt code)
    ∙ gray_to_binary-gray_code m
