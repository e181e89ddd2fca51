-- ===== src/Encoders/GrayLoop.antt =====
-- The decoder's `while` as a relation, without fuel.
use univac.Base.{
  ℕ, zero, suc, ◌/◌, ◌≤◌, ◌≡◌, refl, ap, Bool, true, false, ◌==◌, arith, bit_xor, Bool-cases, inl,
  inr,
}
use univac.Encoders.Gray.{shift_loop, gray_to_binary}

-- A run of the loop from (binary_integer, shift_register) that ends with `result`, after so many
-- rounds.
pub data Shifts : ℕ → ℕ → ℕ → ℕ → Type 0 where
  leave :
      (binary_integer shift_register : ℕ)
      → (shift_register / 2 == 0) ≡ true
      → Shifts binary_integer shift_register 0 binary_integer
  turn :
      (binary_integer shift_register rounds result : ℕ)
      → (shift_register / 2 == 0) ≡ false
      → Shifts (bit_xor binary_integer (shift_register / 2)) (shift_register / 2) rounds result
      → Shifts binary_integer shift_register (suc rounds) result

shift_loop-Shifts :
    (fuel binary_integer shift_register : ℕ)
    → shift_register ≤ fuel
    → (rounds : ℕ) × (rounds ≤ shift_register)
      × Shifts binary_integer shift_register rounds (shift_loop fuel binary_integer shift_register)
unfolding shift_loop
shift_loop-Shifts zero b r h = (0, omega arith, leave b r (ground arith))
shift_loop-Shifts (suc fuel) b r h = elim (Bool-cases (r / 2 == 0)) [
  | inl over ↦ (0, omega arith, simp over (leave b r over))
  | inr more ↦
      let (rounds, few, path) = shift_loop-Shifts fuel (bit_xor b (r / 2)) (r / 2) (ground arith) in
      (suc rounds, ground arith, simp more (turn b r rounds _ more path))
]

true-ne-false : (x : Bool) → x ≡ true → x ≡ false → ⊥
true-ne-false x h k = ground arith

Shifts-same : (b r n n' c c' : ℕ) → Shifts b r n c → Shifts b r n' c' → (n ≡ n') × (c ≡ c')
Shifts-same b r _ _ _ _ (leave _ _ h) (leave _ _ k) = (refl, refl)
Shifts-same b r _ _ _ _ (leave _ _ h) (turn _ _ _ _ k q) = elim (true-ne-false _ h k) [ ]
Shifts-same b r _ _ _ _ (turn _ _ _ _ h p) (leave _ _ k) = elim (true-ne-false _ k h) [ ]
Shifts-same b r _ _ _ _ (turn _ _ n c h p) (turn _ _ n' c' k q) =
    let (same_rounds, same) = Shifts-same (bit_xor b (r / 2)) (r / 2) n n' c c' p q in
    (ap suc same_rounds, same)

-- The decoder's loop ends for every word, after at most as many rounds as the word's value; and
-- every run of the loop that ends has that number of rounds and leaves what the model computes, so
-- the fuel is never used up.
pub gray_to_binary-Shifts :
    (clean_gray : ℕ)
    → (rounds : ℕ) × (rounds ≤ clean_gray)
      × Shifts clean_gray clean_gray rounds (gray_to_binary clean_gray)
      × ((n result : ℕ)
          → Shifts clean_gray clean_gray n result
          → (n ≡ rounds) × (result ≡ gray_to_binary clean_gray))
unfolding gray_to_binary
gray_to_binary-Shifts x =
    let (rounds, few, path) = shift_loop-Shifts x x x (omega arith) in
    (rounds, few, path, λ n c q. Shifts-same x x n rounds c (gray_to_binary x) q path)
