-- ===== src/Ledger/Verify.antt =====
-- config/boot_verification_suite.py: the recalculation of the hash chain of the audit ledgers, which
-- decides whether the boot goes on.
use univac.Base.{
  ℕ, ◌+◌, Bool, true, false, not, ◌&&◌, ◌||◌, Option, none, some, List, [], ◌∷◌, ◌++◌, get_elem?,
  take, ltb, ◌==◌, is_empty, if◌then◌else◌,
}
use univac.Text.{Text, codes, join, equal, starts_with, ends_with}
use univac.Ledger.{Row, genesis_hash}

-- What is reported of one file; the number is that of the row, from 1.
pub data Verdict : Type 0 where
  secure unprotected_schema file_access_exception : Verdict
  tamper_detected : ℕ → Verdict

-- `headers.index(name)`; none is ValueError.
unfoldable pub index_of : Text → Row → Option ℕ
index_of name [] = none
index_of name (h ∷ rest) =
    if equal h name
    then some 0
    else elim (index_of name rest) [ none ↦ none | some i ↦ some (i + 1) ]

module _ (sha256 : Text → Text) where
  -- hashlib.sha256(f"{metrics_body},{tracking_prev_hash}")
  unfoldable pub recalculated_hash : ℕ → Text → Row → Text
  recalculated_hash sha_idx tracking_prev_hash row =
      sha256 (join b',' (take sha_idx row) ++ (b',' ∷ tracking_prev_hash))

  -- The test of a row that has both hash cells, and the rest of the loop.
  unfoldable pub check_row : Option Text → Option Text → Text → Text → ℕ → Verdict → Verdict
  check_row (some recorded_hash) (some recorded_prev) recalculated tracking_prev_hash row_idx rest =
      if not (equal recorded_hash recalculated) || not (equal recorded_prev tracking_prev_hash)
      then tamper_detected (row_idx + 1)
      else rest
  check_row _ _ recalculated tracking_prev_hash row_idx rest = file_access_exception

  abbrev cell_or_nil : Option Text → Text
  cell_or_nil none = []
  cell_or_nil (some t) = t

  -- `for row_idx, row in enumerate(reader)`; an empty row is skipped and counted.
  unfoldable pub verify_rows : ℕ → ℕ → Text → ℕ → List Row → Verdict
  unfolding check_row recalculated_hash
  verify_rows sha_idx prev_sha_idx tracking_prev_hash row_idx [] = secure
  verify_rows sha_idx prev_sha_idx tracking_prev_hash row_idx (row ∷ rows) =
      let next_hash =
        if is_empty row then tracking_prev_hash else cell_or_nil (get_elem? row sha_idx) in
      let rest = verify_rows sha_idx prev_sha_idx next_hash (row_idx + 1) rows in
      if is_empty row
      then rest
      else check_row (get_elem? row sha_idx) (get_elem? row prev_sha_idx)
          (recalculated_hash sha_idx tracking_prev_hash row) tracking_prev_hash row_idx rest

  -- The columns are located by their headers.
  unfoldable pub verify_columns : Option ℕ → Option ℕ → List Row → Verdict
  verify_columns (some sha_idx) (some prev_sha_idx) rows =
      verify_rows sha_idx prev_sha_idx genesis_hash 0 rows
  verify_columns _ _ rows = unprotected_schema

  -- One file; a file with no header row ends the reader and is reported as unreadable.
  unfoldable pub verify_file : List Row → Verdict
  unfolding verify_columns
  verify_file [] = file_access_exception
  verify_file (headers ∷ rows) =
      verify_columns (index_of (codes "current_row_sha256") headers)
        (index_of (codes "previous_row_sha256") headers) rows

-- A file of the log directory; none is a file that cannot be read.
pub record LogFile : Type 0 where
  pub name : Text
  pub content : Option (List Row)

-- `s < t` on texts.
unfoldable pub text_lt : Text → Text → Bool
text_lt s [] = false
text_lt [] (y ∷ t) = true
text_lt (x ∷ s) (y ∷ t) = ltb x y || x == y && text_lt s t

-- `f.startswith(ledger_prefix) and f.endswith('.csv')`
unfoldable pub is_ledger_file : Text → LogFile → Bool
is_ledger_file ledger_prefix f = starts_with f.name ledger_prefix && ends_with f.name (codes ".csv")

abbrev later : Option LogFile → LogFile → Option LogFile
later none f = some f
later (some g) f = if text_lt f.name g.name then some g else some f

-- `sorted([...])[-1]` of the matching files.
unfoldable pub latest_file : Text → List LogFile → Option LogFile
unfolding is_ledger_file text_lt
latest_file ledger_prefix [] = none
latest_file ledger_prefix (f ∷ files) =
    let rest = latest_file ledger_prefix files in
    if is_ledger_file ledger_prefix f then later rest f else rest

unfoldable pub compliance_ledgers : List Text
compliance_ledgers =
    codes "flag_halyard_audit"
    ∷ codes "marpol_bilge_audit"
    ∷ codes "mission_telemetry"
    ∷ codes "shore_facility_audit"
    ∷ []

pub record FaultReport : Type 0 where
  pub file_name : Text
  pub verdict : Verdict

-- No report is made of a secure file.
abbrev pub report_of : Text → Verdict → List FaultReport
report_of name secure = []
report_of name v = record { file_name = name; verdict = v } ∷ []

module _ (sha256 : Text → Text) where
  abbrev content_verdict : Option (List Row) → Verdict
  content_verdict none = file_access_exception
  content_verdict (some rows) = verify_file sha256 rows

  abbrev pub audit_file : Option LogFile → List FaultReport
  audit_file none = []
  audit_file (some f) = report_of f.name (content_verdict f.content)

  unfoldable pub audit_ledgers : List Text → List LogFile → List FaultReport
  audit_ledgers [] files = []
  audit_ledgers (prefix ∷ prefixes) files =
      audit_file (latest_file prefix files) ++ audit_ledgers prefixes files

  -- `verify_cryptographic_ledger_integrity`; none is a log directory that does not exist.
  unfoldable pub verify_cryptographic_ledger_integrity :
      Option (List LogFile) → Bool × List FaultReport
  verify_cryptographic_ledger_integrity none = (true, [])
  verify_cryptographic_ledger_integrity (some files) =
      let fault_reports = audit_ledgers compliance_ledgers files in
      (is_empty fault_reports, fault_reports)

  -- `execute_full_suite`
  unfoldable pub execute_full_suite : Option (List LogFile) → Bool
  unfolding verify_cryptographic_ledger_integrity
  execute_full_suite directory = (verify_cryptographic_ledger_integrity directory).0
