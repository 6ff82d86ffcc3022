-- ===== src/Version.antt =====
-- internal/version: PostgreSQL versions and the gates that choose the SQL of a metric by version,
-- with the three gates of internal/collector. Version numbers are naturals.
use pgpulse.Common.{
  ℕ, zero, ◌+◌, ◌*◌, ◌/◌, ◌%◌, Bool, true, false, not, ◌&&◌, Option, none, some, List, [], ◌∷◌, ltb,
  leb, ◌==◌, if◌then◌else◌,
}
use pgpulse.Common.Text.{Text, text}
pub mod Order
pub mod Detection
mod Samples

pub record PgVersion : Type 0 where
  pub major : ℕ
  pub minor : ℕ
  pub num : ℕ
  pub full : Text

unfoldable pub at_least : PgVersion → ℕ → ℕ → Bool
at_least v major minor = if not (v.major == major) then ltb major v.major else leb minor v.minor

-- `max_major` 0 means that there is no upper bound.
pub record VersionRange : Type 0 where
  pub min_major : ℕ
  pub min_minor : ℕ
  pub max_major : ℕ
  pub max_minor : ℕ

unfoldable pub contains : VersionRange → PgVersion → Bool
unfolding at_least
contains r v =
    if not (at_least v r.min_major r.min_minor)
    then false
    else if r.max_major == 0
    then true
    else if ltb r.max_major v.major
    then false
    else if v.major == r.max_major && ltb r.max_minor v.minor
    then false
    else true

pub record SqlVariant : Type 0 where
  pub range : VersionRange
  pub sql : Text

pub record Gate : Type 0 where
  pub name : Text
  pub variants : List SqlVariant

-- The loop of `Select`.
select_from : List SqlVariant → PgVersion → Option Text
select_from [] v = none
select_from (variant ∷ rest) v =
    if contains variant.range v then some variant.sql else select_from rest v

unfoldable pub select : Gate → PgVersion → Option Text
unfolding select_from
select g v = select_from g.variants v

-- What `Detect` returns: the failure of its two queries and of strconv.Atoi, or a version.
pub data Detected : Type 0 where
  num_failed : Detected
  full_failed : Detected
  parse_failed : Detected
  detected : PgVersion → Detected

-- The version that `Detect` reads off a server_version_num.
unfoldable pub decode : ℕ → Text → PgVersion
decode num full = record {
  major = num / 10_000;
  minor = num % 10_000 / 100;
  num = num;
  full = full;
}

-- The two rows that the server answers with (`none`: the query fails) are arguments, and so is
-- strconv.Atoi.
unfoldable pub detect : (Text → Option ℕ) → Option Text → Option Text → Detected
unfolding decode
detect atoi none full = num_failed
detect atoi (some num_str) none = full_failed
detect atoi (some num_str) (some full) = elim (atoi num_str) [
  | none ↦ parse_failed
  | some num ↦ detected (decode num full)
]

abbrev range : ℕ → ℕ → VersionRange
range low high = record { min_major = low; min_minor = 0; max_major = high; max_minor = 99 }

abbrev variant : ℕ → ℕ → Text → SqlVariant
variant low high sql = record { range = range low high; sql = sql }

-- The gates of internal/collector, each with a word in place of each SQL text.
abbrev pub checkpoint_gate : Gate
checkpoint_gate = record {
  name = text "checkpoint";
  variants = variant 14 16 (text "bgwriter") ∷ variant 17 99 (text "checkpointer") ∷ [];
}

abbrev pub replication_slots_gate : Gate
replication_slots_gate = record {
  name = text "replication_slots";
  variants =
      variant 14 14 (text "base")
      ∷ variant 15 15 (text "two_phase")
      ∷ variant 16 99 (text "conflicting")
      ∷ [];
}
