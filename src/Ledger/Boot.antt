-- ===== src/Ledger/Boot.antt =====
-- When the boot suite lets the boot go on.
use univac.Base.{
  ◌⊎◌, inl, inr, not, all, ap, ◌∙◌, ◌≡◌, ◌↔◌, refl, Bool, true, false, ◌&&◌, Option, none, some,
  List, [], ◌∷◌, ◌++◌, arith, is_empty,
}
use univac.Text.{Text, codes, equal}
use univac.Ledger.{Row}
use univac.Ledger.Linked.{IsUnbroken, verify_file-IsUnbroken}
use univac.Ledger.Latest.{
  DistinctNames, matches, IsLatest, Chosen, all-In, latest_file-Chosen, IsLatest-unique,
}
use univac.Ledger.Mission.{mission_headers}
use univac.Ledger.Verify.{
  Verdict, secure, unprotected_schema, index_of, verify_file, LogFile, latest_file,
  compliance_ledgers, FaultReport, report_of, audit_file, audit_ledgers, execute_full_suite,
}

module _ (sha256 : Text → Text) where
  -- The latest file of a class, if there is one, can be read and its chain holds.
  abbrev pub IsSecure : Option LogFile → Type 0
  IsSecure none = Unit
  IsSecure (some f) =
      (rows : List Row) × (f.content ≡ some rows) × (verify_file sha256 rows ≡ secure)

  abbrev pub AllSecure : List Text → List LogFile → Type 0
  AllSecure [] files = Unit
  AllSecure (prefix ∷ prefixes) files =
      IsSecure (latest_file prefix files) × AllSecure prefixes files

  content_secure :
      (name : Text) (c : Option (List Row))
      → is_empty (audit_file sha256 (some (record { name = name; content = c }))) ≡ true
      → (rows : List Row) × (c ≡ some rows) × (verify_file sha256 rows ≡ secure)
  content_secure name none h = cc
  content_secure name (some rows) h = (rows, refl, verdict (verify_file sha256 rows) h)
    where
      verdict : (v : Verdict) → is_empty (report_of name v) ≡ true → v ≡ secure
      verdict secure k = refl
      verdict _ k = cc

  audit_file-IsSecure : (o : Option LogFile) → (is_empty (audit_file sha256 o) ≡ true) ↔ IsSecure o
  audit_file-IsSecure none = (λ _. tt, λ _. refl)
  audit_file-IsSecure (some f) = (content_secure f.name f.content, λ (rows, e, v). rw e (rw v refl))

  is_empty-append : (xs ys : List FaultReport) → is_empty (xs ++ ys) ≡ is_empty xs && is_empty ys
  is_empty-append [] ys = refl
  is_empty-append (x ∷ xs) ys = refl

  audit_ledgers_secure :
      (prefixes : List Text) (files : List LogFile)
      → (is_empty (audit_ledgers sha256 prefixes files) ≡ true) ↔ AllSecure prefixes files
  unfolding audit_ledgers
  audit_ledgers_secure [] files = (λ _. tt, λ _. refl)
  audit_ledgers_secure (prefix ∷ prefixes) files =
      let first = audit_file-IsSecure (latest_file prefix files) in
      let rest = audit_ledgers_secure prefixes files in
      let here = audit_file sha256 (latest_file prefix files) in
      let there = audit_ledgers sha256 prefixes files in
      (
        λ h.
            let both : (is_empty here ≡ true) × (is_empty there ≡ true) =
              ground (arith, is_empty-append here there) in
            (first.0 both.0, rest.0 both.1),
        λ (s, t).
            let a = first.1 s in let b = rest.1 t in ground (arith, is_empty-append here there),
      )

  execute_full_suite-AllSecure :
      (files : List LogFile)
      → (execute_full_suite sha256 (some files) ≡ true) ↔ AllSecure compliance_ledgers files
  unfolding execute_full_suite
  execute_full_suite-AllSecure files = audit_ledgers_secure compliance_ledgers files

  -- A class of ledgers: no file matches, or the latest that does can be read and is unbroken.
  abbrev pub IsSound : Text → List LogFile → Type 0
  IsSound prefix files =
      (all (λ g. not (matches prefix g)) files ≡ true)
      ⊎ ((f : LogFile) × IsLatest prefix files f
          × (rows : List Row) × (f.content ≡ some rows)
          × IsUnbroken sha256 rows)

  IsSecure-IsSound :
      (prefix : Text) (files : List LogFile) (o : Option LogFile)
      → Chosen prefix files o
      → IsSecure o
      → IsSound prefix files
  IsSecure-IsSound prefix files none c s = inl c
  IsSecure-IsSound prefix files (some f) c (rows, e, v) =
      inr (f, c, rows, e, (verify_file-IsUnbroken sha256 rows).0 v)

  IsSound-IsSecure :
      (prefix : Text) (files : List LogFile) (o : Option LogFile)
      → DistinctNames files
      → Chosen prefix files o
      → IsSound prefix files
      → IsSecure o
  IsSound-IsSecure prefix files none d c s = tt
  IsSound-IsSecure prefix files (some f) d (i, m, h) (inl empty) =
      let other = all-In (λ g. not (matches prefix g)) files f empty i in ground (arith, m, other)
  IsSound-IsSecure prefix files (some f) d c (inr (g, latest, rows, e, v)) =
      let same = IsLatest-unique prefix files f g d c latest in
      (rows, ap (λ x. x.content) same ∙ e, (verify_file-IsUnbroken sha256 rows).1 v)

  class_iff :
      (prefix : Text) (files : List LogFile)
      → DistinctNames files
      → IsSecure (latest_file prefix files) ↔ IsSound prefix files
  class_iff prefix files d =
      let c = latest_file-Chosen prefix files in
      (
        IsSecure-IsSound prefix files (latest_file prefix files) c,
        IsSound-IsSecure prefix files (latest_file prefix files) d c,
      )

  -- In a directory, where no two files have one name, the boot goes on exactly when each of the four
  -- classes of ledgers either has no file or has a latest file, the last by name of those with the
  -- prefix and the ending of the class, that can be read and is an unbroken chain: its header names
  -- the two hash columns, and every row that is not empty has the digest of its cells and of the hash
  -- before it, and records that hash, which for the first row is the 64 zeros.
  pub execute_full_suite_iff :
      (files : List LogFile)
      → DistinctNames files
      → (execute_full_suite sha256 (some files) ≡ true) ↔ (
          IsSound (codes "flag_halyard_audit") files
          × IsSound (codes "marpol_bilge_audit") files
          × IsSound (codes "mission_telemetry") files
          × IsSound (codes "shore_facility_audit") files)
  unfolding compliance_ledgers
  execute_full_suite_iff files d =
      let suite = execute_full_suite-AllSecure files in
      let flag = class_iff (codes "flag_halyard_audit") files d in
      let bilge = class_iff (codes "marpol_bilge_audit") files d in
      let mission = class_iff (codes "mission_telemetry") files d in
      let shore = class_iff (codes "shore_facility_audit") files d in
      (
        λ h.
            let (a, (b, (c, (e, end)))) = suite.0 h in
            (flag.0 a, bilge.0 b, mission.0 c, shore.0 e),
        λ (a, b, c, e). suite.1 (flag.1 a, (bilge.1 b, (mission.1 c, (shore.1 e, tt)))),
      )

  mission_unprotected :
      (rows : List Row) → verify_file sha256 (mission_headers ∷ rows) ≡ unprotected_schema
  unfolding verify_file index_of equal
  mission_unprotected rows = refl

  -- If the latest mission ledger begins with the header that the mission logger writes, the
  -- boot is blocked, whatever rows follow: it is one of the ledgers that must be chained,
  -- and it has no hash columns.
  pub mission_log_blocks_boot :
      (files : List LogFile) (f : LogFile) (rows : List Row)
      → latest_file (codes "mission_telemetry") files ≡ some f
      → f.content ≡ some (mission_headers ∷ rows)
      → execute_full_suite sha256 (some files) ≡ false
  unfolding compliance_ledgers
  mission_log_blocks_boot files f rows e c =
      blocked (execute_full_suite sha256 (some files)) (execute_full_suite-AllSecure files).0
    where
      blocked : (b : Bool) → (b ≡ true → AllSecure compliance_ledgers files) → b ≡ false
      blocked false h = refl
      blocked true h =
          let (rs, same, ok) = rw e at ((h refl).1.1.0) in
          cc (mission_unprotected rows, same, ok, c)
