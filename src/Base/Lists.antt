-- ===== src/Base/Lists.antt =====
-- Lists measured by native numbers, and predicates on all members of a list.
use Prim.Native.Nat.{ℕ, zero, suc, ◌+◌}
use mathlib.Core.Path.{◌≡◌, refl, ap}
use mathlib.Core.Bool.{Bool, true, false, ◌&&◌}
use mathlib.Core.Option.{Option, none, some}
use mathlib.Core.List.{List, [], ◌∷◌, ◌++◌, map}
use native.Mathlib.Omega.{arith}

module _ {ℓ} {A : Type ℓ} where
  abbrev pub length : List A → ℕ
  length [] = 0
  length (x ∷ xs) = suc (length xs)

  abbrev pub get_elem? : List A → ℕ → Option A
  get_elem? [] i = none
  get_elem? (x ∷ xs) zero = some x
  get_elem? (x ∷ xs) (suc i) = get_elem? xs i

  abbrev pub take : ℕ → List A → List A
  take zero xs = []
  take (suc n) [] = []
  take (suc n) (x ∷ xs) = x ∷ take n xs

  pub length-append : (xs ys : List A) → length (xs ++ ys) ≡ length xs + length ys
  length-append [] ys = omega arith
  length-append (x ∷ xs) ys = omega (arith, length-append xs ys)

  -- Python's `not xs`.
  abbrev pub is_empty : List A → Bool
  is_empty [] = true
  is_empty (x ∷ xs) = false

  abbrev pub all : (A → Bool) → List A → Bool
  all p [] = true
  all p (x ∷ xs) = p x && all p xs

  pub all-append : (p : A → Bool) (xs ys : List A) → all p (xs ++ ys) ≡ all p xs && all p ys
  all-append p [] ys = refl
  all-append p (x ∷ xs) ys = ground (arith, all-append p xs ys)

  -- A test that is weaker on every member.
  pub all_mono :
      (p q : A → Bool) (imp : (x : A) → p x ≡ true → q x ≡ true) (xs : List A)
      → all p xs ≡ true
      → all q xs ≡ true
  all_mono p q imp [] h = refl
  all_mono p q imp (x ∷ xs) h = ground (arith, imp x, all_mono p q imp xs)

pub map-compose {ℓ ℓ' ℓ''} :
    {A : Type ℓ} {B : Type ℓ'} {C : Type ℓ''} (f : B → C) (g : A → B) (xs : List A)
    → map f (map g xs) ≡ map (λ x. f (g x)) xs
map-compose f g [] = refl
map-compose f g (x ∷ xs) = ap (λ l. f (g x) ∷ l) (map-compose f g xs)
