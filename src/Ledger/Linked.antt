-- ===== src/Ledger/Linked.antt =====
-- What the boot suite accepts as an unbroken chain.
use univac.Base.{
  ℕ, ◌+◌, ◌≡◌, ◌↔◌, refl, ap, ◌∙◌, some, List, [], ◌∷◌, ◌++◌, get_elem?, take, arith, inl, inr,
  Option-cases,
}
use univac.Text.{Text, codes, join}
use univac.Text.Laws.{equal_iff}
use univac.Ledger.{Row, genesis_hash}
use univac.Ledger.Verify.{
  secure, index_of, recalculated_hash, check_row, verify_rows, verify_columns, verify_file,
}

module _ (sha256 : Text → Text) where
  -- Every row that is not empty has the digest of its cells and the hash in front of it, records
  -- that hash, and hands its own on.
  abbrev pub Linked : ℕ → ℕ → Text → List Row → Type 0
  Linked n k previous [] = Unit
  Linked n k previous ([] ∷ rows) = Linked n k previous rows
  Linked n k previous ((c ∷ cells) ∷ rows) =
      (hash : Text) × (get_elem? (c ∷ cells) n ≡ some hash)
      × (get_elem? (c ∷ cells) k ≡ some previous)
      × (hash ≡ sha256 (join b',' (take n (c ∷ cells)) ++ (b',' ∷ previous)))
      × Linked n k hash rows

  -- The header names the two hash columns, and the rows are linked from the 64 zeros on.
  abbrev pub IsUnbroken : List Row → Type 0
  IsUnbroken [] = ⊥
  IsUnbroken (headers ∷ rows) =
      (n : ℕ) × (k : ℕ) × (index_of (codes "current_row_sha256") headers ≡ some n)
      × (index_of (codes "previous_row_sha256") headers ≡ some k)
      × Linked n k genesis_hash rows

  -- The verifier on a row that is not empty.
  verify_linked :
      (n k : ℕ) (previous : Text) (i : ℕ) (row : Row) (rest : List Row) (h r : Text)
      → get_elem? row n ≡ some h
      → get_elem? row k ≡ some r
      → check_row sha256
          (some h)
          (some r)
          (recalculated_hash sha256 n previous row)
          previous
          i
          (verify_rows sha256 n k h (i + 1) rest)
        ≡ secure
      → (h ≡ sha256 (join b',' (take n row) ++ (b',' ∷ previous)))
        × (r ≡ previous)
        × (verify_rows sha256 n k h (i + 1) rest ≡ secure)
  unfolding check_row recalculated_hash
  verify_linked n k previous i row rest h r eh er e = ground (
    arith,
    equal_iff h (sha256 (join b',' (take n row) ++ (b',' ∷ previous))),
    equal_iff r previous,
  )

  verify_rows-Linked :
      (n k : ℕ) (previous : Text) (i : ℕ) (rows : List Row)
      → verify_rows sha256 n k previous i rows ≡ secure
      → Linked n k previous rows
  unfolding verify_rows
  verify_rows-Linked n k previous i [] e = tt
  verify_rows-Linked n k previous i ([] ∷ rows) e = verify_rows-Linked n k previous (i + 1) rows e
  verify_rows-Linked n k previous i ((c ∷ cells) ∷ rows) e =
      elim (Option-cases (get_elem? (c ∷ cells) n)) [
        | inl gone ↦ unfold check_row in ground (arith, gone)
        | inr (h, found) ↦ elim (Option-cases (get_elem? (c ∷ cells) k)) [
          | inl gone ↦ unfold check_row in ground (arith, gone, found)
          | inr (r, link) ↦
              let (digest, same, rest) =
                verify_linked n k previous i (c ∷ cells) rows h r found link
                  (rw (found, link) at e) in
              (h, found, link ∙ ap some same, digest, verify_rows-Linked n k h (i + 1) rows rest)
        ]
      ]

  Linked-verify_rows :
      (n k : ℕ) (previous : Text) (i : ℕ) (rows : List Row)
      → Linked n k previous rows
      → verify_rows sha256 n k previous i rows ≡ secure
  unfolding verify_rows check_row recalculated_hash
  Linked-verify_rows n k previous i [] l = refl
  Linked-verify_rows n k previous i ([] ∷ rows) l = Linked-verify_rows n k previous (i + 1) rows l
  Linked-verify_rows n k previous i ((c ∷ cells) ∷ rows) (h, found, link, digest, l) =
      let rest = Linked-verify_rows n k h (i + 1) rows l in
      let first =
        (equal_iff h (sha256 (join b',' (take n (c ∷ cells)) ++ (b',' ∷ previous)))).1 digest in
      let second = (equal_iff previous previous).1 refl in
      rw (found, link) (simp (first, second) rest)

  -- The verdict is secure exactly for an unbroken chain.
  pub verify_file-IsUnbroken :
      (rows : List Row) → (verify_file sha256 rows ≡ secure) ↔ IsUnbroken rows
  unfolding verify_file verify_columns
  verify_file-IsUnbroken [] = (λ e. cc, λ never. absurd never)
  verify_file-IsUnbroken (headers ∷ rows) = (
    λ e. elim (Option-cases (index_of (codes "current_row_sha256") headers)) [
      | inl gone ↦ ground arith
      | inr (n, cur) ↦ elim (Option-cases (index_of (codes "previous_row_sha256") headers)) [
        | inl gone ↦ ground arith
        | inr (k, prev) ↦
            (n, k, cur, prev, verify_rows-Linked n k genesis_hash 0 rows (rw (cur, prev) at e))
      ]
    ],
    λ (n, k, cur, prev, l). rw (cur, prev) (Linked-verify_rows n k genesis_hash 0 rows l),
  )
