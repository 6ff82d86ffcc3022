-- ===== src/Version/Detection.antt =====
-- The minor version that `Detect` reports.
use pgpulse.Common.{ℕ, ◌+◌, ◌*◌, ◌<◌, ◌≡◌, false, Option, some, arith}
use pgpulse.Common.Text.{Text}
use pgpulse.Version.{PgVersion, at_least, detected, detect, decode}

-- Since PostgreSQL 10 the number is 10000 * major + release. When both queries succeed and the number
-- parses to that, with a release below 100, `Detect` reports the right major version and the minor
-- version 0, so the version is at least `major.minor` for no minor number but 0.
pub detect-minor_lost :
    (atoi : Text → Option ℕ) (num_str full : Text) (major release minor : ℕ)
    → release < 100
    → atoi num_str ≡ some (major * 10_000 + release)
    → 0 < minor
    → (v : PgVersion) × (detect atoi (some num_str) (some full) ≡ detected v)
      × (v.major ≡ major)
      × (v.minor ≡ 0)
      × (at_least v major minor ≡ false)
unfolding detect at_least
detect-minor_lost atoi num_str full major release minor small parsed pos = (
  decode (major * 10_000 + release) full,
  rw (parsed, detect),
  omega arith,
  omega arith,
  ground arith,
)
