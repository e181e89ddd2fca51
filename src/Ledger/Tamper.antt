-- ===== src/Ledger/Tamper.antt =====
-- Edits and deletions of written rows are found.
use univac.Base.{ℕ, suc, ◌+◌, ◌≡◌, ◌≢◌, ap, ◌∙◌, some, List, [], ◌∷◌, ◌++◌, arith, length}
use univac.Text.{Text, codes}
use univac.Ledger.{Row, genesis_hash, LoggerSetup, row_hash}
use univac.Ledger.Verify.{
  tamper_detected, index_of, check_row, recalculated_hash, verify_rows, verify_file,
}
use univac.Ledger.Chain.{
  rows_for, last_hash, verify_rows-rows_for, take-append, get_elem?-append, get_elem?-append_next,
  is_empty-append,
}
use univac.Ledger.Restart.{differ_lem, verify_rows-broken_link}

module _ {A : Type 0} (setup : LoggerSetup A) where
  -- The row of `a` with the cells of `edited` in their place and the old hashes behind them.
  abbrev pub edited_row : A → A → Text → Row
  edited_row a edited previous = setup.cells edited ++ (row_hash setup a previous ∷ previous ∷ [])

  recalculated_hash-edited_row :
      (a edited : A) (previous : Text)
      → recalculated_hash setup.sha256
          (length (setup.cells edited))
          previous
          (edited_row a edited previous)
        ≡ row_hash setup edited previous
  unfolding recalculated_hash row_hash
  recalculated_hash-edited_row a edited previous =
      rw (take-append (setup.cells edited) (row_hash setup a previous ∷ previous ∷ []))

  verify_rows-edited_row :
      (n : ℕ) (widths : (a : A) → length (setup.cells a) ≡ n) (a edited : A) (previous : Text)
      (row_idx : ℕ) (more : List Row)
      → row_hash setup a previous ≢ row_hash setup edited previous
      → verify_rows setup.sha256 n (suc n) previous row_idx (edited_row a edited previous ∷ more)
        ≡ tamper_detected (row_idx + 1)
  unfolding verify_rows check_row
  verify_rows-edited_row n widths a edited previous row_idx more ne =
      let sha = row_hash setup a previous in
      ground (
        arith,
        widths edited,
        is_empty-append (setup.cells edited) sha previous,
        get_elem?-append (setup.cells edited) sha previous,
        get_elem?-append_next (setup.cells edited) sha previous,
        recalculated_hash-edited_row a edited previous,
        differ_lem sha (row_hash setup edited previous) ne,
      )

  module _ (n : ℕ) (widths : (a : A) → length (setup.cells a) ≡ n)
      (hi : index_of (codes "current_row_sha256") setup.csv_headers ≡ some n)
      (hp : index_of (codes "previous_row_sha256") setup.csv_headers ≡ some (suc n)) where
    -- In a ledger whose two hash columns stand behind the cells, written of the snapshots
    -- l, a and followed by whatever rows, the cells of the row of `a` are replaced by
    -- those of another snapshot and its hashes are kept: the boot suite reports that row,
    -- if the hash tells the two rows apart.
    pub edited_row_detected :
        (l : List A) (a edited : A) (more : List Row)
        → row_hash setup a (last_hash setup genesis_hash l)
          ≢ row_hash setup edited (last_hash setup genesis_hash l)
        → verify_file setup.sha256 (
            setup.csv_headers
            ∷ (rows_for setup genesis_hash l
                ++ (edited_row a edited (last_hash setup genesis_hash l) ∷ more)))
          ≡ tamper_detected (length l + 1)
    unfolding verify_file
    edited_row_detected l a edited more ne =
        rw (hi, hp)
          (verify_rows-rows_for setup n widths l genesis_hash 0
              (edited_row a edited (last_hash setup genesis_hash l) ∷ more)
            ∙ verify_rows-edited_row n widths a edited (last_hash setup genesis_hash l)
                (0 + length l) more ne
            ∙ ap tamper_detected (omega arith))

    -- In a ledger whose two hash columns stand behind the cells, the row of `a` is cut out
    -- between l and what was written behind it: the row after the gap is reported, if the
    -- hash of `a`'s row is another than the one before it.
    pub deleted_row_detected :
        (l : List A) (a b : A) (m : List A)
        → row_hash setup a (last_hash setup genesis_hash l) ≢ last_hash setup genesis_hash l
        → verify_file setup.sha256 (
            setup.csv_headers
            ∷ (rows_for setup genesis_hash l
                ++ rows_for setup (row_hash setup a (last_hash setup genesis_hash l)) (b ∷ m)))
          ≡ tamper_detected (length l + 1)
    unfolding verify_file
    deleted_row_detected l a b m ne =
        let gap = row_hash setup a (last_hash setup genesis_hash l) in
        rw (hi, hp)
          (verify_rows-rows_for setup n widths l genesis_hash 0 (rows_for setup gap (b ∷ m))
            ∙ verify_rows-broken_link setup n widths b gap (last_hash setup genesis_hash l)
                (0 + length l) (rows_for setup (row_hash setup b gap) m) ne
            ∙ ap tamper_detected (omega arith))
