-- ===== src/Base/Tests.antt =====
-- Boolean tests on native numbers, the conditional, and defaults for missing dictionary keys.
use Prim.Native.Nat.{ℕ, compare, Ordering}
use mathlib.Core.Path.{◌≡◌, refl}
use mathlib.Core.Logic.{◌↔◌, ◌⊎◌, inl, inr}
use mathlib.Core.Bool.{Bool, true, false}
use mathlib.Core.Option.{Option, none, some}
use native.Mathlib.Omega.{arith}

abbrev pub ltb : ℕ → ℕ → Bool
ltb a b = elim (compare a b) [ Ordering.lt ↦ true | _ ↦ false ]

abbrev pub leb : ℕ → ℕ → Bool
leb a b = elim (compare a b) [ Ordering.gt ↦ false | _ ↦ true ]

infix 50 ◌==◌
abbrev pub ◌==◌ : ℕ → ℕ → Bool
a == b = elim (compare a b) [ Ordering.eq ↦ true | _ ↦ false ]

infix 1 if◌then◌else◌
abbrev pub if◌then◌else◌ {ℓ} : {A : Type ℓ} → Bool → A → A → A
if true then x else y = x
if false then x else y = y

-- `d.get(key, default)` on a field that may be absent.
abbrev pub or_default {ℓ} : {A : Type ℓ} → Option A → A → A
or_default none d = d
or_default (some a) d = a

-- A chain of steps of which each may raise.
infixl 5 ◌>>=◌
abbrev pub ◌>>=◌ {ℓ ℓ'} : {A : Type ℓ} {B : Type ℓ'} → Option A → (A → Option B) → Option B
none >>= k = none
some a >>= k = k a

-- Python's `1 if b else 0`.
abbrev pub to_bit : Bool → ℕ
to_bit true = 1
to_bit false = 0

pub Bool-cases : (b : Bool) → (b ≡ true) ⊎ (b ≡ false)
Bool-cases true = inl refl
Bool-cases false = inr refl

pub Option-cases {ℓ} : {A : Type ℓ} (o : Option A) → (o ≡ none) ⊎ ((a : A) × (o ≡ some a))
Option-cases none = inl refl
Option-cases (some a) = inr (a, refl)

pub ==_iff : (a b : ℕ) → ((a == b) ≡ true) ↔ (a ≡ b)
==_iff a b = ground arith
