-- ===== src/Tests/Line.antt =====
-- Sentences on the line (Nmea).
use univac.Base.{◌≡◌, refl, false, ◌∷◌, ◌++◌, arith}
use univac.Text.{codes, contains}
use univac.Nmea.{checksum_of, validate_checksum}
use univac.Nmea.Corruption.{validate_checksum_detects_change}

-- The frame of "A" is accepted.

validate_checksum_detects_change_example :
    validate_checksum
      (b'$' ∷ ((codes "P" ++ (b'1' ∷ codes "2")) ++ (b'*' ∷ checksum_of (codes "P32"))))
    ≡ false
unfolding contains
validate_checksum_detects_change_example =
    validate_checksum_detects_change (codes "P") (codes "2") b'3' b'1' (λ e. omega arith) refl refl
      refl
