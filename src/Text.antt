-- ===== src/Text.antt =====
-- Python's text operations that the program uses, on ASCII text as a list of code points: `strip`,
-- `upper`, `split` by one character, `in`, `==`, `endswith`, and `f"{n:02X}"`.
pub mod Utf8
pub mod Laws
pub mod Hex
pub mod Number
pub mod Decimal
use Prim.Native.Char.{code}
use univac.Base.{
  ℕ, zero, suc, ◌+◌, ◌-◌, ◌/◌, ◌%◌, String, Bool, true, false, not, ◌&&◌, ◌||◌, List, [], ◌∷◌, ◌++◌,
  map, ltb, leb, ◌==◌, if◌then◌else◌, is_empty,
}

abbrev pub Text : Type 0
Text = List ℕ

-- The code points of a literal.
abbrev pub codes : String → Text
codes String.[] = []
codes (String.◌∷◌ c s) = code c ∷ codes s

-- The ASCII characters that `str.strip` removes: tab to carriage return, 0x1c to 0x1f, and space.
unfoldable pub is_space : ℕ → Bool
is_space c = leb 9 c && leb c 13 || leb 28 c && leb c 32

unfoldable pub strip_left : Text → Text
strip_left [] = []
strip_left (c ∷ s) = if is_space c then strip_left s else c ∷ s

unfoldable pub strip_right : Text → Text
strip_right [] = []
strip_right (c ∷ s) =
    let rest = strip_right s in if is_empty rest && is_space c then [] else c ∷ rest

unfoldable pub strip : Text → Text
strip s = strip_right (strip_left s)

unfoldable pub upper_char : ℕ → ℕ
upper_char c = if leb b'a' c && leb c b'z' then c - 32 else c

unfoldable pub upper : Text → Text
upper s = map upper_char s

unfoldable pub lower_char : ℕ → ℕ
lower_char c = if leb b'A' c && leb c b'Z' then c + 32 else c

unfoldable pub lower : Text → Text
lower s = map lower_char s

-- `c in s`
unfoldable pub contains : ℕ → Text → Bool
contains c [] = false
contains c (x ∷ s) = x == c || contains c s

abbrev pub onto_first : ℕ → List Text → List Text
onto_first x [] = (x ∷ []) ∷ []
onto_first x (w ∷ ws) = (x ∷ w) ∷ ws

-- `s.split(c)`: one more part than there are `c`.
unfoldable pub split : ℕ → Text → List Text
split c [] = [] ∷ []
split c (x ∷ s) = let rest = split c s in if x == c then [] ∷ rest else onto_first x rest

-- `s == t`
unfoldable pub equal : Text → Text → Bool
equal [] [] = true
equal (x ∷ s) (y ∷ t) = x == y && equal s t
equal _ _ = false

-- `s.startswith(t)`
unfoldable pub starts_with : Text → Text → Bool
starts_with s [] = true
starts_with [] (y ∷ t) = false
starts_with (x ∷ s) (y ∷ t) = x == y && starts_with s t

-- `s.endswith(t)`
unfoldable pub ends_with : Text → Text → Bool
unfolding equal
ends_with [] t = equal [] t
ends_with (x ∷ s) t = equal (x ∷ s) t || ends_with s t

-- `t in l` for a list of texts.
unfoldable pub member : Text → List Text → Bool
member t [] = false
member t (x ∷ l) = equal t x || member t l

-- `sep.join(parts)` for a separator of one character.
unfoldable pub join : ℕ → List Text → Text
join c [] = []
join c (x ∷ []) = x
join c (x ∷ y ∷ l) = x ++ (c ∷ join c (y ∷ l))
