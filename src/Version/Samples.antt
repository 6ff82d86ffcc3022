-- ===== src/Version/Samples.antt =====
-- Tests of internal/version, and its theorems at concrete versions.
use pgpulse.Common.{ℕ, ◌≡◌, refl, false, Option, none, some, arith}
use pgpulse.Common.Text.{Text, text}
use pgpulse.Version.{
  PgVersion, at_least, contains, select, decode, detect, detected, checkpoint_gate,
  replication_slots_gate,
}
use pgpulse.Version.Detection.{detect-minor_lost}

abbrev full_text : Text
full_text = text "16.4"

abbrev sixteen : PgVersion
sixteen = decode 160_004 full_text

select_tests :
    (select checkpoint_gate sixteen ≡ some (text "bgwriter"))
    × (select replication_slots_gate sixteen ≡ some (text "conflicting"))
    × (select checkpoint_gate (decode 130_011 full_text) ≡ none)
unfolding select contains decode text
select_tests = (refl, refl, refl)

abbrev atoi_of : Text → Option ℕ
atoi_of t = some 160_004

detect-minor_lost_example :
    (v : PgVersion) × (detect atoi_of (some (text "160004")) (some full_text) ≡ detected v)
    × (v.major ≡ 16)
    × (v.minor ≡ 0)
    × (at_least v 16 4 ≡ false)
detect-minor_lost_example =
    detect-minor_lost atoi_of (text "160004") full_text 16 4 4 (omega arith) refl (omega arith)
