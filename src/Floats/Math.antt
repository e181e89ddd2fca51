-- ===== src/Floats/Math.antt =====
-- Python's `math`, which is not code of this repository, as far as the program calls it: the
-- functions at arguments where they do not raise, `**` with a constant exponent among them.
use univac.Base.{ℕ, ◌≡◌, true, List, if◌then◌else◌}
use univac.Floats.{Floating}

pub record MathLib (F : Type 0) : Type 0 where
  pub sin : F → F
  pub cos : F → F
  pub tan : F → F
  pub tanh : F → F
  pub exp : F → F
  pub sqrt : F → F
  pub degrees : F → F
  pub atan2 : F → F → F
  -- `x ** 2` and `x ** 5`
  pub square : F → F
  pub fifth : F → F
  pub copysign : F → F → F
  -- the built-in `sum`
  pub total : List F → F
  -- `numpy.dot` of two vectors
  pub dot : List F → List F → F

-- Documented behaviour of IEEE arithmetic: rounding is monotone, `exp` of what is not positive lies
-- between 0 and 1, and a factor between 0 and 1 does not enlarge a finite number that is not
-- negative. What is ordered to anything is a number, and then ordered to itself.
pub record MathLaws {F : Type 0} (fl : Floating F) (m : MathLib F) : Type 0 where
  pub le_self : (a b : F) → fl.le a b ≡ true → (fl.le a a ≡ true) × (fl.le b b ≡ true)
  pub round_mono : (k : ℕ) (a b : F) → fl.le a b ≡ true → fl.le (fl.round k a) (fl.round k b) ≡ true
  pub neg_antitone : (a b : F) → fl.le a b ≡ true → fl.le (fl.neg b) (fl.neg a) ≡ true
  pub neg_le : (a : F) → fl.le (fl.lit 0 1) a ≡ true → fl.le (fl.neg a) a ≡ true
  pub exp_unit :
      (x : F)
      → fl.le x (fl.lit 0 1) ≡ true
      → (fl.le (fl.lit 0 1) (m.exp x) ≡ true) × (fl.le (m.exp x) (fl.lit 10 1) ≡ true)
  pub neg_mul_abs :
      (x : F)
      → fl.le x x ≡ true
      → fl.le (fl.mul (fl.neg (fl.lit 15 3)) (fl.abs x)) (fl.lit 0 1) ≡ true
  pub mul_unit :
      (a t : F)
      → fl.le (fl.lit 0 1) a ≡ true
      → fl.le a (fl.lit 5000000 1) ≡ true
      → fl.le (fl.lit 0 1) t ≡ true
      → fl.le t (fl.lit 10 1) ≡ true
      → (fl.le (fl.lit 0 1) (fl.mul a t) ≡ true) × (fl.le (fl.mul a t) a ≡ true)

-- A concrete instance, for tests: each function is a linear one or constant.
abbrev pub linear_math : {F : Type 0} → Floating F → MathLib F
linear_math fl = record {
  sin = λ x. x;
  cos = λ x. fl.lit 1 0;
  tan = λ x. x;
  tanh = λ x. x;
  exp = λ x. fl.lit 10 1;
  sqrt = λ x. x;
  degrees = λ x. fl.mul x (fl.lit 57296 3);
  atan2 = λ y x. y;
  square = λ x. fl.mul x x;
  fifth = λ x. x;
  copysign = λ x y. if fl.lt y (fl.lit 0 1) then fl.neg (fl.abs x) else fl.abs x;
  total = λ a. fl.lit 0 1;
  dot = λ a b. fl.lit 0 1;
}
