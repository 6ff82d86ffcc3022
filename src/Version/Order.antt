-- ===== src/Version/Order.antt =====
-- What the comparisons of internal/version decide, and which variant a gate selects.
use pgpulse.Common.{
  ℕ, ◌≤◌, ◌<◌, ◌≡◌, ◌↔◌, ◌⊎◌, inl, inr, true, false, Option, some, List, [], ◌∷◌, arith, Bool-cases,
  ltb, ap, if◌then◌else◌,
}
use pgpulse.Common.Text.{Text, text}
use pgpulse.Version.{
  PgVersion, VersionRange, contains, SqlVariant, Gate, select, select_from, decode, checkpoint_gate,
  replication_slots_gate,
}

-- A version is at least `major.minor` in the lexicographic order.
abbrev pub IsAtLeast : PgVersion → ℕ → ℕ → Type 0
IsAtLeast v major minor = (major < v.major) ⊎ ((major ≡ v.major) × (minor ≤ v.minor))

abbrev pub IsAtMost : PgVersion → ℕ → ℕ → Type 0
IsAtMost v major minor = (v.major < major) ⊎ ((v.major ≡ major) × (v.minor ≤ minor))

-- A range contains a version exactly when the version lies between the bounds of the range in the
-- lexicographic order of major and minor numbers, both bounds included. A range whose `max_major` is
-- 0 has no upper bound.
pub contains_iff :
    (r : VersionRange) (v : PgVersion)
    → (contains r v ≡ true) ↔ (
        IsAtLeast v r.min_major r.min_minor
        × ((r.max_major ≡ 0) ⊎ IsAtMost v r.max_major r.max_minor))
unfolding contains
contains_iff r v = (λ h. ground arith, λ h. ground arith)

-- The first of the variants whose range contains the version has the text.
data FirstMatch (v : PgVersion) (sql : Text) : List SqlVariant → Type 0 where
  found :
      {x : SqlVariant} {xs : List SqlVariant}
      → contains x.range v ≡ true
      → x.sql ≡ sql
      → FirstMatch v sql (x ∷ xs)
  later :
      {x : SqlVariant} {xs : List SqlVariant}
      → contains x.range v ≡ false
      → FirstMatch v sql xs
      → FirstMatch v sql (x ∷ xs)

select_from-FirstMatch :
    (xs : List SqlVariant) (v : PgVersion) (sql : Text)
    → select_from xs v ≡ some sql
    → FirstMatch v sql xs
unfolding select_from
select_from-FirstMatch [] v sql h = cc
select_from-FirstMatch (x ∷ xs) v sql h = elim (Bool-cases (contains x.range v)) [
  | inl e ↦ found e (cc (rw e at h))
  | inr e ↦ later e (select_from-FirstMatch xs v sql (rw e at h))
]

FirstMatch-select_from :
    {v : PgVersion} {sql : Text} {xs : List SqlVariant}
    → FirstMatch v sql xs
    → select_from xs v ≡ some sql
unfolding select_from
FirstMatch-select_from (found c e) = rw c (ap {B = Option Text} some e)
FirstMatch-select_from (later c m) = rw c (FirstMatch-select_from m)

-- A gate selects a text exactly when that is the text of the first of its variants, in order, whose
-- range contains the version.
select_iff :
    (g : Gate) (v : PgVersion) (sql : Text) → (select g v ≡ some sql) ↔ FirstMatch v sql g.variants
unfolding select
select_iff g v sql = (select_from-FirstMatch g.variants v sql, FirstMatch-select_from)

-- The gates of the collectors for checkpoints and for replication slots choose a text for every
-- server number from 140000 up to 999999 that `Detect` decodes: that of 14 to 16 or of 17 and later
-- for checkpoints, that of 14, of 15, or of 16 and later for slots.
pub select-supported :
    (num : ℕ) (full : Text)
    → 140_000 ≤ num
    → num < 1_000_000
    → (select checkpoint_gate (decode num full)
        ≡ some (if ltb num 170_000 then text "bgwriter" else text "checkpointer"))
      × (select replication_slots_gate (decode num full)
          ≡ some (
              if ltb num 150_000
              then text "base"
              else if ltb num 160_000
              then text "two_phase"
              else text "conflicting"))
unfolding select contains decode
select-supported num full low high = (ground arith, ground arith)
