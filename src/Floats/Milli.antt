-- ===== src/Floats/Milli.antt =====
-- A concrete instance of the interface, for tests: fixed-point numbers in units of 0.001.
use univac.Base.{
  ℕ, zero, suc, ◌+◌, ◌-◌, ◌*◌, ◌/◌, ◌%◌, ◌^◌, ◌≤◌, ◌≡◌, true, ◌&&◌, Option, none, some, [], ◌∷◌,
  ◌++◌, arith, ltb, leb, ◌==◌, if◌then◌else◌, all, all-append,
}
use univac.Base.Int.{ℤ, pos, negsuc, sub_ℕ, ◌+ℤ◌, ◌-ℤ◌, ◌*ℤ◌, neg_ℤ, magnitude, ltb_ℤ, leb_ℤ}
use univac.Text.{Text}
use univac.Floats.{Floating, FloatLaws, is_float_char}

abbrev pub with_sign : ℤ → ℕ → ℤ
with_sign (pos _) n = pos n
with_sign (negsuc _) n = sub_ℕ 0 n

-- The floor of a / b, and what is left, for b > 0.
abbrev pub floor_div : ℤ → ℕ → ℤ
floor_div (pos n) b = pos (n / b)
floor_div (negsuc n) b = negsuc (n / b)

abbrev pub floor_rem : ℤ → ℕ → ℕ
floor_rem (pos n) b = n % b
floor_rem (negsuc n) b = b - 1 - n % b

-- The digits after the point are read down to the thousandth.
read_fraction : ℕ → ℕ → Text → Option ℕ
read_fraction scale acc [] = some (acc * scale)
read_fraction scale acc (c ∷ s) =
    let more =
      read_fraction (if ltb 1 scale then scale / 10 else scale)
        (if ltb 1 scale then acc * 10 + (c - 48) else acc) s in
    if leb 48 c && leb c 57 then more else none

read_digits : ℕ → Text → Option ℕ
unfolding read_fraction
read_digits acc [] = some (acc * 1000)
read_digits acc (c ∷ s) =
    let more = read_digits (acc * 10 + (c - 48)) s in
    if c == b'.' then read_fraction 1000 acc s else if leb 48 c && leb c 57 then more else none

unfoldable pub read_number : Text → Option ℤ
unfolding read_digits
read_number [] = none
read_number (c ∷ s) =
    let minus : Option ℤ = elim (read_digits 0 s) [ none ↦ none | some n ↦ some (sub_ℕ 0 n) ] in
    let plus : Option ℤ = elim (read_digits 0 (c ∷ s)) [ none ↦ none | some n ↦ some (pos n) ] in
    if c == b'-' then minus else plus

-- `count` decimal digits of n.
digits_onto : ℕ → ℕ → Text → Text
digits_onto zero n rest = rest
digits_onto (suc count) n rest = digits_onto count (n / 10) ((48 + n % 10) ∷ rest)

decimal : ℕ → Text
unfolding digits_onto
decimal n =
    if ltb n 10
    then digits_onto 1 n []
    else if ltb n 100
    then digits_onto 2 n []
    else digits_onto 9 n []

unfoldable pub print_fixed : ℕ → ℤ → Text
unfolding decimal magnitude
print_fixed k x =
    (if ltb_ℤ x (pos 0) then b'-' ∷ [] else [])
    ++ (decimal (magnitude x / 1000)
        ++ (b'.' ∷ digits_onto k (magnitude x % 1000 * 10 ^ k / 1000) []))

abbrev pub round_to : ℕ → ℤ → ℤ
round_to k x = if ltb k 3 then with_sign x (magnitude x / 10 ^ (3 - k) * 10 ^ (3 - k)) else x

abbrev pub Milli : Type 0
Milli = ℤ

instance abbrev pub milli : Floating ℤ
milli = record {
  add = ◌+ℤ◌;
  sub = ◌-ℤ◌;
  mul = λ a b. floor_div (a *ℤ b) 1000;
  div = λ a b. with_sign (a *ℤ b) (magnitude a * 1000 / magnitude b);
  rem = λ a b. pos (floor_rem a (magnitude b));
  neg = neg_ℤ;
  abs = λ a. pos (magnitude a);
  round = round_to;
  radians = λ a. floor_div (a *ℤ pos 17453) 1_000_000;
  pi = pos 3142;
  lit = λ n k. pos (n * 10 ^ (3 - k));
  lt = ltb_ℤ;
  le = leb_ℤ;
  read = read_number;
  repr = print_fixed 3;
  fixed = print_fixed;
}

digits_onto-chars :
    (count n : ℕ) (rest : Text)
    → all is_float_char rest ≡ true
    → all is_float_char (digits_onto count n rest) ≡ true
unfolding digits_onto
digits_onto-chars zero n rest h = h
digits_onto-chars (suc count) n rest h =
    digits_onto-chars count (n / 10) ((48 + n % 10) ∷ rest) (ground arith)

decimal-chars : (n : ℕ) → all is_float_char (decimal n) ≡ true
unfolding decimal
decimal-chars n =
    ground (arith, digits_onto-chars 1 n [], digits_onto-chars 2 n [], digits_onto-chars 9 n [])

print_fixed-chars : (k : ℕ) (x : ℤ) → all is_float_char (print_fixed k x) ≡ true
unfolding print_fixed
print_fixed-chars k x = ground (
  arith,
  all-append is_float_char (decimal (magnitude x / 1000))
      (b'.' ∷ digits_onto k (magnitude x % 1000 * 10 ^ k / 1000) []),
  decimal-chars (magnitude x / 1000),
  digits_onto-chars k (magnitude x % 1000 * 10 ^ k / 1000) [],
)

lit_le : (a b k : ℕ) → a ≤ b → leb_ℤ (milli.lit a k) (milli.lit b k) ≡ true
lit_le a b k h = let scaled : a * 10 ^ (3 - k) ≤ b * 10 ^ (3 - k) = grind arith in ground arith

neg_lit_le : (a b k : ℕ) → leb_ℤ (milli.neg (milli.lit a k)) (milli.lit b k) ≡ true
unfolding neg_ℤ
neg_lit_le a b k = ground arith

leb_ℤ_refl : (a : ℤ) → leb_ℤ a a ≡ true
leb_ℤ_refl a = ground arith

pub milli_laws : FloatLaws milli
milli_laws = record {
  le_of_lt = λ a b h. ground arith;
  le_trans = λ a b c h k. ground arith;
  lit_mono = lit_le;
  neg_lit = neg_lit_le;
  neg_lit_refl = λ a k. leb_ℤ_refl (milli.neg (milli.lit a k));
  fixed_chars = print_fixed-chars;
}
