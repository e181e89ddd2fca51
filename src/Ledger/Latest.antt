-- ===== src/Ledger/Latest.antt =====
-- The latest file of a class of ledgers.
use univac.Base.{
  ◌≡◌, ◌⊎◌, refl, sym, ◌∙◌, Bool, true, false, not, ◌&&◌, Option, none, some, List, [], ◌∷◌, ltb,
  ◌==◌, all, all_mono, is_empty, if◌then◌else◌, arith, inl, inr, Bool-cases, Option-cases,
}
use univac.Text.{Text, codes, equal, starts_with, ends_with}
use univac.Text.Laws.{equal_comm}
use univac.Ledger.Verify.{LogFile, text_lt, is_ledger_file, latest_file}

abbrev pub In : LogFile → List LogFile → Type 0
In f [] = ⊥
In f (g ∷ l) = (f ≡ g) ⊎ In f l

-- No two files have one name.
abbrev pub DistinctNames : List LogFile → Type 0
DistinctNames [] = Unit
DistinctNames (f ∷ l) = (all (λ g. not (equal f.name g.name)) l ≡ true) × DistinctNames l

abbrev pub matches : Text → LogFile → Bool
matches prefix f = starts_with f.name prefix && ends_with f.name (codes ".csv")

-- The order of texts: at the first place where they differ, or by their ends.
abbrev pub precedes : Text → Text → Bool
precedes [] t = not (is_empty t)
precedes (x ∷ s) [] = false
precedes (x ∷ s) (y ∷ t) = if ltb x y then true else x == y && precedes s t

-- A matching file that no matching file follows.
abbrev pub IsLatest : Text → List LogFile → LogFile → Type 0
IsLatest prefix files f =
    In f files
    × (matches prefix f ≡ true)
    × (all (λ g. not (matches prefix g && precedes f.name g.name)) files ≡ true)

text_lt-precedes : (s t : Text) → text_lt s t ≡ precedes s t
unfolding text_lt
text_lt-precedes [] [] = refl
text_lt-precedes [] (y ∷ t) = refl
text_lt-precedes (x ∷ s) [] = refl
text_lt-precedes (x ∷ s) (y ∷ t) = ground (arith, text_lt-precedes s t)

precedes_between : (s t u : Text) → precedes s u ≡ true → precedes s t ≡ false → precedes t u ≡ true
precedes_between [] [] u h k = h
precedes_between [] (y ∷ t) u h k = ground arith
precedes_between (x ∷ s) t [] h k = ground arith
precedes_between (x ∷ s) [] (z ∷ u) h k = refl
precedes_between (x ∷ s) (y ∷ t) (z ∷ u) h k = ground (arith, precedes_between s t u)

precedes_total : (s t : Text) → precedes s t ≡ false → precedes t s ≡ false → equal s t ≡ true
unfolding equal
precedes_total [] [] h k = refl
precedes_total [] (y ∷ t) h k = ground arith
precedes_total (x ∷ s) [] h k = ground arith
precedes_total (x ∷ s) (y ∷ t) h k = ground (arith, precedes_total s t)

precedes_asym : (s t : Text) → precedes s t ≡ true → precedes t s ≡ false
precedes_asym [] [] h = refl
precedes_asym [] (y ∷ t) h = refl
precedes_asym (x ∷ s) [] h = ground arith
precedes_asym (x ∷ s) (y ∷ t) h = ground (arith, precedes_asym s t)

precedes_self : (s : Text) → precedes s s ≡ false
precedes_self [] = refl
precedes_self (x ∷ s) = ground (arith, precedes_self s)

pub all-In :
    (p : LogFile → Bool) (l : List LogFile) (f : LogFile) → all p l ≡ true → In f l → p f ≡ true
all-In p [] f h never = absurd never
all-In p (g ∷ l) f h (inl e) = rw e (ground arith)
all-In p (g ∷ l) f h (inr i) = all-In p l f (ground arith) i

same_name :
    (l : List LogFile) (f g : LogFile)
    → DistinctNames l
    → In f l
    → In g l
    → equal f.name g.name ≡ true
    → f ≡ g
same_name [] f g d i j e = absurd i
same_name (x ∷ l) f g (d, ds) (inl i) (inl j) e = i ∙ sym j
same_name (x ∷ l) f g (d, ds) (inl i) (inr j) e =
    let other = all-In (λ y. not (equal x.name y.name)) l g d j in
    let same : equal x.name g.name ≡ true = rw (← i) e in ground (arith, other, same)
same_name (x ∷ l) f g (d, ds) (inr i) (inl j) e =
    let other = all-In (λ y. not (equal x.name y.name)) l f d i in
    let same : equal x.name f.name ≡ true = rw (← j) (equal_comm g.name f.name ∙ e) in
    ground (arith, other, same)
same_name (x ∷ l) f g (d, ds) (inr i) (inr j) e = same_name l f g ds i j e

matches-is_ledger_file : (prefix : Text) (f : LogFile) → is_ledger_file prefix f ≡ matches prefix f
unfolding is_ledger_file
matches-is_ledger_file prefix f = refl

-- The choice between a file and what the rest of the directory gives.
abbrev pub choice : Text → LogFile → Option LogFile → Option LogFile
choice prefix f none = if matches prefix f then some f else none
choice prefix f (some g) =
    if matches prefix f then (if precedes f.name g.name then some g else some f) else some g

latest_file-choice :
    (prefix : Text) (f : LogFile) (l : List LogFile)
    → latest_file prefix (f ∷ l) ≡ choice prefix f (latest_file prefix l)
unfolding latest_file is_ledger_file
latest_file-choice prefix f l = elim (Option-cases (latest_file prefix l)) [
  | inl gone ↦ rw gone refl
  | inr (g, found) ↦ rw found (rw (text_lt-precedes f.name g.name) refl)
]

-- What a choice of the latest file says.
abbrev pub Chosen : Text → List LogFile → Option LogFile → Type 0
Chosen prefix l none = all (λ g. not (matches prefix g)) l ≡ true
Chosen prefix l (some f) = IsLatest prefix l f

none_follows :
    (prefix : Text) (f : LogFile) (l : List LogFile)
    → all (λ g. not (matches prefix g)) l ≡ true
    → all (λ g. not (matches prefix g && precedes f.name g.name)) l ≡ true
none_follows prefix f l =
    all_mono (λ g. not (matches prefix g)) (λ g. not (matches prefix g && precedes f.name g.name))
      (λ g h. ground arith) l

still_none_follows :
    (prefix : Text) (f g : LogFile) (l : List LogFile)
    → precedes f.name g.name ≡ false
    → all (λ x. not (matches prefix x && precedes g.name x.name)) l ≡ true
    → all (λ x. not (matches prefix x && precedes f.name x.name)) l ≡ true
still_none_follows prefix f g l h =
    all_mono (λ x. not (matches prefix x && precedes g.name x.name))
      (λ x. not (matches prefix x && precedes f.name x.name))
      (λ x k. ground (arith, precedes_between f.name g.name x.name)) l

choice-Chosen :
    (prefix : Text) (f : LogFile) (l : List LogFile) (o : Option LogFile)
    → Chosen prefix l o
    → Chosen prefix (f ∷ l) (choice prefix f o)
choice-Chosen prefix f l none h = elim (Bool-cases (matches prefix f)) [
  | inl ours ↦
      let follows = none_follows prefix f l h in
      rw ours (inl refl, ours, ground (arith, precedes_self f.name))
  | inr alien ↦ rw alien (ground arith)
]
choice-Chosen prefix f l (some g) (i, m, h) = elim (Bool-cases (matches prefix f)) [
  | inr alien ↦ rw alien (inr i, m, ground arith)
  | inl ours ↦ elim (Bool-cases (precedes f.name g.name)) [
    | inl before ↦ rw (ours, before) (inr i, m, ground (arith, precedes_asym f.name g.name before))
    | inr after ↦
        let follows = still_none_follows prefix f g l after h in
        rw (ours, after) (inl refl, ours, ground (arith, precedes_self f.name))
  ]
]

pub latest_file-Chosen : (prefix : Text) (l : List LogFile) → Chosen prefix l (latest_file prefix l)
latest_file-Chosen prefix [] = unfold latest_file in refl
latest_file-Chosen prefix (f ∷ l) =
    rw (latest_file-choice prefix f l)
      (choice-Chosen prefix f l (latest_file prefix l) (latest_file-Chosen prefix l))

-- Where names are distinct, there is only one latest file.
pub IsLatest-unique :
    (prefix : Text) (l : List LogFile) (f g : LogFile)
    → DistinctNames l
    → IsLatest prefix l f
    → IsLatest prefix l g
    → f ≡ g
IsLatest-unique prefix l f g d (i, m, h) (j, n, k) =
    let one = all-In (λ x. not (matches prefix x && precedes f.name x.name)) l g h j in
    let two = all-In (λ x. not (matches prefix x && precedes g.name x.name)) l f k i in
    same_name l f g d i j (precedes_total f.name g.name (ground arith) (ground arith))
