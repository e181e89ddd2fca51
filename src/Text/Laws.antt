-- ===== src/Text/Laws.antt =====
-- Laws of the text operations.
use univac.Base.{
  ℕ, ◌≡◌, refl, ◌↔◌, ◌≢◌, ap, sym, ◌∙◌, true, false, not, ◌||◌, List, [], ◌∷◌, ◌++◌, arith, ◌==◌,
  all, is_empty,
}
use univac.Text.{
  Text, is_space, strip_left, strip_right, strip, contains, onto_first, split, equal, join,
}

pub equal_iff : (s t : Text) → (equal s t ≡ true) ↔ (s ≡ t)
unfolding equal
equal_iff (x ∷ s) (y ∷ t) = ground (arith, equal_iff s t)
equal_iff _ _ = ground arith

pub equal_self : (s : Text) → equal s s ≡ true
equal_self s = (equal_iff s s).1 refl

pub contains-append : (c : ℕ) (s t : Text) → contains c (s ++ t) ≡ contains c s || contains c t
unfolding contains
contains-append c [] t = refl
contains-append c (x ∷ s) t = ground (arith, contains-append c s t)

-- A text without the separator is one part.
pub split_one : (c : ℕ) (s : Text) → contains c s ≡ false → split c s ≡ s ∷ []
unfolding split contains
split_one c [] h = refl
split_one c (x ∷ s) h = ground (arith, split_one c s)

-- The first separator ends the first part.
pub split-append :
    (c : ℕ) (s t : Text) → contains c s ≡ false → split c (s ++ (c ∷ t)) ≡ s ∷ split c t
unfolding split contains
split-append c [] t h = ground arith
split-append c (x ∷ s) t h = ground (arith, split-append c s t)

join-onto_first : (c x : ℕ) (l : List Text) → join c (onto_first x l) ≡ x ∷ join c l
unfolding join
join-onto_first c x [] = refl
join-onto_first c x (w ∷ []) = refl
join-onto_first c x (w ∷ v ∷ l) = refl

pub split-ne-nil : (c : ℕ) (s : Text) → split c s ≢ []
unfolding split
split-ne-nil c [] e = cc
split-ne-nil c (x ∷ s) e = onto (split c s) (ground arith)
  where
    onto : (l : List Text) → onto_first x l ≡ [] → ⊥
    onto [] h = cc
    onto (w ∷ l) h = cc

join-nil-cons : (c : ℕ) (l : List Text) → l ≢ [] → join c ([] ∷ l) ≡ c ∷ join c l
unfolding join
join-nil-cons c [] h = absurd (h refl)
join-nil-cons c (w ∷ l) h = refl

-- Joining the parts gives the text back.
pub join-split : (c : ℕ) (s : Text) → join c (split c s) ≡ s
unfolding split
join-split c [] = unfold join in refl
join-split c (x ∷ s) = ground (
  arith,
  join-onto_first c x (split c s),
  join-nil-cons c (split c s) (split-ne-nil c s),
  join-split c s,
)

contains_nil : (c : ℕ) → contains c [] ≡ false
unfolding contains
contains_nil c = refl

onto_first-parts :
    (c x : ℕ) (l : List Text)
    → (x == c) ≡ false
    → all (λ w. not (contains c w)) l ≡ true
    → all (λ w. not (contains c w)) (onto_first x l) ≡ true
unfolding contains
onto_first-parts c x [] h k = ground arith
onto_first-parts c x (w ∷ l) h k = ground arith

-- No part holds the separator.
pub split_parts : (c : ℕ) (s : Text) → all (λ w. not (contains c w)) (split c s) ≡ true
unfolding split
split_parts c [] = unfold contains in refl
split_parts c (x ∷ s) =
    ground (arith, contains_nil c, onto_first-parts c x (split c s), split_parts c s)

pub split-eq_two :
    (c : ℕ) (s x y : Text)
    → split c s ≡ x ∷ y ∷ []
    → (s ≡ x ++ (c ∷ y)) × (contains c x ≡ false) × (contains c y ≡ false)
unfolding join
split-eq_two c s x y e =
    let joined = sym (join-split c s) ∙ ap (join c) e in
    let parts = rw e at (split_parts c s) in (joined, ground arith, ground arith)

is_empty-append : (s : Text) (d : ℕ) (t : Text) → is_empty (s ++ (d ∷ t)) ≡ false
is_empty-append [] d t = refl
is_empty-append (c ∷ s) d t = refl

abbrev pub NoSpace : Text → Type 0
NoSpace s = all (λ c. not (is_space c)) s ≡ true

pub strip_left-NoSpace : (s : Text) → NoSpace s → strip_left s ≡ s
unfolding strip_left
strip_left-NoSpace [] h = refl
strip_left-NoSpace (c ∷ s) h = ground arith

pub strip_right-NoSpace : (s : Text) → NoSpace s → strip_right s ≡ s
unfolding strip_right
strip_right-NoSpace [] h = refl
strip_right-NoSpace (c ∷ s) h = ground (arith, strip_right-NoSpace s)

pub strip-NoSpace : (s : Text) → NoSpace s → strip s ≡ s
unfolding strip
strip-NoSpace s h = rw (strip_left-NoSpace s h) (strip_right-NoSpace s h)

-- Trailing whitespace is dropped.
strip_right_spaces : (w : Text) → all is_space w ≡ true → strip_right w ≡ []
unfolding strip_right
strip_right_spaces [] h = refl
strip_right_spaces (c ∷ w) h = ground (arith, strip_right_spaces w)

strip_right-NoSpace-append :
    (t w : Text) → NoSpace t → all is_space w ≡ true → strip_right (t ++ w) ≡ t
unfolding strip_right
strip_right-NoSpace-append [] w h k = strip_right_spaces w k
strip_right-NoSpace-append (c ∷ t) w h k = ground (arith, strip_right-NoSpace-append t w)

-- All that stands before a last part without spaces is kept.
pub strip_right-append :
    (s : Text) (d : ℕ) (t w : Text)
    → NoSpace (d ∷ t)
    → all is_space w ≡ true
    → strip_right (s ++ (d ∷ (t ++ w))) ≡ s ++ (d ∷ t)
unfolding strip_right
strip_right-append [] d t w h k = strip_right-NoSpace-append (d ∷ t) w h k
strip_right-append (c ∷ s) d t w h k =
    rw (strip_right-append s d t w h k) (ground (arith, is_empty-append s d t))

pub equal_comm : (s t : Text) → equal s t ≡ equal t s
unfolding equal
equal_comm [] [] = refl
equal_comm [] (_ ∷ _) = refl
equal_comm (_ ∷ _) [] = refl
equal_comm (x ∷ s) (y ∷ t) = ground (arith, equal_comm s t)
