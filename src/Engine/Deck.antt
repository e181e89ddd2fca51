-- ===== src/Engine/Deck.antt =====
-- The roll stabilizer's window.
use univac.Base.{
  ℕ, zero, suc, ◌+◌, ◌-◌, ◌≤◌, ◌≡◌, refl, sym, ap, ◌∙◌, true, false, Option, List, [], ◌∷◌, ◌++◌,
  length, length-append, ltb, arith, Bool-cases, inl, inr,
}
use mathlib.Core.List.{append_assoc, append-nil}
use univac.Floats.{Floating}
use univac.Floats.Math.{MathLib}
use univac.Engine.Stabilizer.{
  Stabilizer, RollTelemetry, DeckWeaponState, window_size, pop_first, push_roll, new_stabilizer,
  roll_of, calculate_fire_synchronized_stabilization,
}

-- What is left behind the first n.
abbrev pub drop : {A : Type 0} → ℕ → List A → List A
drop zero l = l
drop (suc n) [] = []
drop (suc n) (x ∷ l) = drop n l

-- The last n.
abbrev pub last_of : {A : Type 0} → ℕ → List A → List A
last_of n l = drop (length l - n) l

drop-append :
    {A : Type 0} (n : ℕ) (xs ys : List A) → n ≤ length xs → drop n (xs ++ ys) ≡ drop n xs ++ ys
drop-append zero xs ys h = refl
drop-append (suc n) [] ys h = ground arith
drop-append (suc n) (x ∷ xs) ys h = drop-append n xs ys (ground arith)

pop_first-drop : {A : Type 0} (n : ℕ) (xs : List A) → pop_first (drop n xs) ≡ drop (suc n) xs
pop_first-drop zero [] = refl
pop_first-drop zero (x ∷ xs) = refl
pop_first-drop (suc n) [] = refl
pop_first-drop (suc n) (x ∷ xs) = pop_first-drop n xs

length-drop : {A : Type 0} (n : ℕ) (xs : List A) → length (drop n xs) ≡ length xs - n
length-drop zero xs = ground arith
length-drop (suc n) [] = ground arith
length-drop (suc n) (x ∷ xs) = ground (arith, length-drop n xs)

push_roll-last_of :
    {F : Type 0} (x : F) (ys : List F)
    → push_roll x (last_of window_size ys) ≡ last_of window_size (ys ++ (x ∷ []))
unfolding push_roll window_size
push_roll-last_of x ys = elim (Bool-cases (ltb (length ys) 50)) [
  | inl short ↦
      let at_start : length ys - 50 ≡ 0 = ground arith in
      let still : length ys + 1 - 50 ≡ 0 = ground arith in
      let fits : ltb 50 (length ys + 1) ≡ false = ground arith in
      rw (length-append ys (x ∷ []), at_start, still, length-append ys (x ∷ []), fits) refl
  | inr long ↦
      let one_more : length ys + 1 - 50 ≡ suc (length ys - 50) = ground arith in
      let inside : length ys - 50 ≤ length ys = omega arith in
      let over : ltb 50 (length (drop (length ys - 50) ys ++ (x ∷ []))) ≡ true = ground (
        arith,
        length-append (drop (length ys - 50) ys) (x ∷ []),
        length-drop (length ys - 50) ys,
      ) in
      rw (over, length-append ys (x ∷ []), one_more)
        (ap pop_first (sym (drop-append (length ys - 50) ys (x ∷ []) inside))
          ∙ pop_first-drop (length ys - 50) (ys ++ (x ∷ [])))
]

abbrev pub push_all : {F : Type 0} → List F → List F → List F
push_all [] h = h
push_all (x ∷ xs) h = push_all xs (push_roll x h)

push_all-last_of :
    {F : Type 0} (xs ys : List F)
    → push_all xs (last_of window_size ys) ≡ last_of window_size (ys ++ xs)
push_all-last_of [] ys = rw (append-nil ys) refl
push_all-last_of (x ∷ xs) ys =
    ap (push_all xs) (push_roll-last_of x ys)
    ∙ push_all-last_of xs (ys ++ (x ∷ []))
    ∙ ap (last_of window_size) (append_assoc ys (x ∷ []) xs)

-- What a cycle of the stabilizer is given.
pub record DeckCycle (F : Type 0) : Type 0 where
  pub target_yaw_rate : Option F
  pub telemetry : RollTelemetry F
  pub weapon_state : DeckWeaponState F

module _ {F : Type 0} ⦃fl : Floating F⦄ where
  abbrev pub deck_step : MathLib F → DeckCycle F → Stabilizer F → Stabilizer F
  deck_step m c s =
      (calculate_fire_synchronized_stabilization m c.target_yaw_rate c.telemetry c.weapon_state s).1

  abbrev pub deck_run : MathLib F → List (DeckCycle F) → Stabilizer F → Stabilizer F
  deck_run m [] s = s
  deck_run m (c ∷ l) s = deck_run m l (deck_step m c s)

  abbrev pub rolls : List (DeckCycle F) → List F
  rolls [] = []
  rolls (c ∷ l) = roll_of c.telemetry ∷ rolls l

  deck_step-push :
      (m : MathLib F) (c : DeckCycle F) (s : Stabilizer F)
      → (deck_step m c s).roll_history ≡ push_roll (roll_of c.telemetry) s.roll_history
  unfolding calculate_fire_synchronized_stabilization
  deck_step-push m c s = refl

  deck_run-push :
      (m : MathLib F) (l : List (DeckCycle F)) (s : Stabilizer F)
      → (deck_run m l s).roll_history ≡ push_all (rolls l) s.roll_history
  deck_run-push m [] s = refl
  deck_run-push m (c ∷ l) s =
      deck_run-push m l (deck_step m c s) ∙ ap (push_all (rolls l)) (deck_step-push m c s)

  new_stabilizer-history : (d : F) → (new_stabilizer d).roll_history ≡ last_of window_size []
  unfolding new_stabilizer window_size
  new_stabilizer-history d = refl

  -- After any cycles the stabilizer's history is the last fifty roll angles of the run, in their
  -- order, and all of them while there are fewer.
  pub deck_run-last_of :
      (m : MathLib F) (max_rudder_deg : F) (l : List (DeckCycle F))
      → (deck_run m l (new_stabilizer max_rudder_deg)).roll_history ≡ last_of window_size (rolls l)
  deck_run-last_of m d l =
      deck_run-push m l (new_stabilizer d)
      ∙ ap (push_all (rolls l)) (new_stabilizer-history d)
      ∙ push_all-last_of (rolls l) []
