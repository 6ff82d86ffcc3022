-- ===== src/Rca/Durations.antt =====
-- Go's time.Duration, in nanoseconds: the units in which internal/rca writes its constants.
use pgpulse.Common.{ℕ, ◌*◌}

abbrev pub second : ℕ
second = 1000000000

abbrev pub minute : ℕ
minute = 60 * second

abbrev pub hour : ℕ
hour = 60 * minute
