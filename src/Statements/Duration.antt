-- ===== src/Statements/Duration.antt =====
-- internal/statements/diff.go: formatDuration.
use pgpulse.Common.{ℕ, zero, suc, ◌+◌, ◌/◌, ◌%◌, [], ◌∷◌, ◌++◌, if◌then◌else◌, ltb, ◌==◌, ◌=?◌}
use pgpulse.Common.Text.{Text, text, text_eq}
use pgpulse.Common.Integers.{ℤ, pos, negsuc}

-- The digits of the number, as the verb %d writes them, with one turn for each digit.
decimal_digits : ℕ → ℕ → Text → Text
decimal_digits zero n done = done
decimal_digits (suc turns) n done =
    let rest = decimal_digits turns (n / 10) ((48 + n % 10) ∷ done) in
    if ltb n 10 then (48 + n) ∷ done else rest

-- A number below 10 ^ 20; the code formats days, hours and minutes.
digits : ℕ → Text
unfolding decimal_digits
digits n = decimal_digits 20 n []

trim_space : Text → Text
trim_space [] = []
trim_space (c ∷ []) = if c == 32 then [] else c ∷ []
trim_space (c ∷ d ∷ cs) = c ∷ trim_space (d ∷ cs)

abbrev nanoseconds_per_minute : ℕ
nanoseconds_per_minute = 60_000_000_000

-- `-d` for a negative duration.
abbrev magnitude : ℤ → ℕ
magnitude (pos n) = n
magnitude (negsuc n) = n + 1

unfoldable pub format_duration : ℤ → Text
unfolding digits trim_space
format_duration d =
    let total_minutes = magnitude d / nanoseconds_per_minute in
    let days = total_minutes / 1440 in
    let hours = (total_minutes / 60) % 24 in
    let minutes = total_minutes % 60 in
    let s =
      (if ltb 0 days then digits days ++ text "d " else [])
      ++ (if ltb 0 hours then digits hours ++ text "h " else [])
      ++ (if ltb 0 minutes then digits minutes ++ text "m" else []) in
    if total_minutes == 0 then text "< 1m" else if s =? [] then text "< 1m" else trim_space s
