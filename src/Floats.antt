-- ===== src/Floats.antt =====
-- Python's `float`, which is not code of this repository: its operations, with the text forms
-- `float(s)` and `f"{x:.2f}"`, and the documented laws that the theorems rely on. Definitions take
-- the operations as an instance; comparisons may all answer False (NaN).
pub mod Milli
pub mod Math
pub mod MilliMath
use univac.Base.{arith, ℕ, ◌≤◌, ◌≡◌, Bool, true, ◌&&◌, ◌||◌, Option, ◌==◌, leb, if◌then◌else◌, all}
use univac.Text.{Text}

pub record Floating (F : Type 0) : Type 0 where
  pub add : F → F → F
  pub sub : F → F → F
  pub mul : F → F → F
  -- `a / b` for a `b` that is not zero
  pub div : F → F → F
  -- `a % b` for a `b` that is not zero
  pub rem : F → F → F
  pub neg : F → F
  pub abs : F → F
  -- `round(x, k)`
  pub round : ℕ → F → F
  -- `math.radians(x)`
  pub radians : F → F
  pub pi : F
  -- the literal whose digits are n, k of them after the point
  pub lit : ℕ → ℕ → F
  pub lt : F → F → Bool
  pub le : F → F → Bool
  -- `float(s)`, none where it raises ValueError
  pub read : Text → Option F
  -- `str(x)`
  pub repr : F → Text
  -- f"{x:.kf}"
  pub fixed : ℕ → F → Text

-- The characters of a number in fixed notation, `nan` and `inf` included.
abbrev pub is_float_char : ℕ → Bool
is_float_char c =
    leb b'0' c && leb c b'9'
    || c == b'-'
    || c == b'.'
    || c == b'a'
    || c == b'f'
    || c == b'i'
    || c == b'n'

-- IEEE 754 ordering of doubles with correctly rounded literals, and the alphabet of `f"{x:.kf}"`.
pub record FloatLaws {F : Type 0} (fl : Floating F) : Type 0 where
  pub le_of_lt : (a b : F) → fl.lt a b ≡ true → fl.le a b ≡ true
  pub le_trans : (a b c : F) → fl.le a b ≡ true → fl.le b c ≡ true → fl.le a c ≡ true
  pub lit_mono : (a b k : ℕ) → a ≤ b → fl.le (fl.lit a k) (fl.lit b k) ≡ true
  pub neg_lit : (a b k : ℕ) → fl.le (fl.neg (fl.lit a k)) (fl.lit b k) ≡ true
  pub neg_lit_refl : (a k : ℕ) → fl.le (fl.neg (fl.lit a k)) (fl.neg (fl.lit a k)) ≡ true
  pub fixed_chars : (k : ℕ) (x : F) → all is_float_char (fl.fixed k x) ≡ true

module _ {F : Type 0} ⦃fl : Floating F⦄ where
  -- Python's `min(a, b)` and `max(a, b)`: the second argument only where it is strictly beyond.
  abbrev pub min_of : F → F → F
  min_of a b = if fl.lt b a then b else a

  abbrev pub max_of : F → F → F
  max_of a b = if fl.lt a b then b else a

  -- max(lo, min(hi, x))
  abbrev pub clamp : F → F → F → F
  clamp lo hi x = max_of lo (min_of hi x)

  -- A clamped value lies in its range, also where x is not a number.
  pub clamp_bounds :
      (laws : FloatLaws fl) (lo hi x : F)
      → fl.le lo lo ≡ true
      → fl.le hi hi ≡ true
      → fl.le lo hi ≡ true
      → (fl.le lo (clamp lo hi x) ≡ true) × (fl.le (clamp lo hi x) hi ≡ true)
  clamp_bounds laws lo hi x rl rh lh =
      ground (arith, laws.le_of_lt x hi, laws.le_of_lt lo x, laws.le_of_lt lo hi)
