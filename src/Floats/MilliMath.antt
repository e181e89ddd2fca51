-- ===== src/Floats/MilliMath.antt =====
-- The laws of Floats.Math hold of the fixed-point numbers with the linear functions.
use univac.Base.{ℕ, zero, suc, ◌≡◌, refl, true, arith, ◌≤◌, ◌*◌}
use univac.Base.Int.{ℤ, pos, negsuc, leb_ℤ, neg_ℤ, magnitude, ◌*ℤ◌}
use univac.Floats.Milli.{milli, round_to}
use univac.Floats.Math.{MathLib, MathLaws, linear_math}

abbrev pub milli_math : MathLib ℤ
milli_math = linear_math milli

round_to_mono : (k : ℕ) (a b : ℤ) → leb_ℤ a b ≡ true → leb_ℤ (round_to k a) (round_to k b) ≡ true
unfolding magnitude
round_to_mono zero (pos a) (pos b) h = ground arith
round_to_mono zero (pos a) (negsuc b) h = ground arith
round_to_mono zero (negsuc a) (pos b) h = ground arith
round_to_mono zero (negsuc a) (negsuc b) h = ground arith
round_to_mono (suc zero) (pos a) (pos b) h = ground arith
round_to_mono (suc zero) (pos a) (negsuc b) h = ground arith
round_to_mono (suc zero) (negsuc a) (pos b) h = ground arith
round_to_mono (suc zero) (negsuc a) (negsuc b) h = ground arith
round_to_mono (suc (suc zero)) (pos a) (pos b) h = ground arith
round_to_mono (suc (suc zero)) (pos a) (negsuc b) h = ground arith
round_to_mono (suc (suc zero)) (negsuc a) (pos b) h = ground arith
round_to_mono (suc (suc zero)) (negsuc a) (negsuc b) h = ground arith
round_to_mono (suc (suc (suc k))) a b h = ground arith

mul_unit :
    (a t : ℤ)
    → leb_ℤ (pos 0) a ≡ true
    → leb_ℤ (pos 0) t ≡ true
    → leb_ℤ t (pos 1000) ≡ true
    → (leb_ℤ (pos 0) (milli.mul a t) ≡ true) × (leb_ℤ (milli.mul a t) a ≡ true)
unfolding ◌*ℤ◌
mul_unit (pos a) (pos t) h k l =
    let small : t ≤ 1000 = ground arith in
    let product : a * t ≤ a * 1000 = grind (arith, small) in ground (arith, product)
mul_unit (pos a) (negsuc t) h k l = ground arith
mul_unit (negsuc a) t h k l = ground arith

pub milli_math_laws : MathLaws milli milli_math
unfolding neg_ℤ ◌*ℤ◌ magnitude
milli_math_laws = record {
  le_self = λ a b h. ground arith;
  round_mono = round_to_mono;
  neg_antitone = λ a b h. ground arith;
  neg_le = λ a h. ground arith;
  exp_unit = λ x h. (refl, refl);
  neg_mul_abs = λ x h. ground arith;
  mul_unit = λ a t h k l n. mul_unit a t h l n;
}
