-- ===== src/Auth/RateLimit.antt =====
-- internal/auth/ratelimit.go: failed logins per address in a sliding window. An instant is a natural
-- number of nanoseconds and `time.Now()` is an argument of each call, read once for every reading in
-- the source. `now - window` that would be negative is 0 here; no instant is before either.
use pgpulse.Common.{
  ℕ, zero, suc, ◌+◌, ◌-◌, ◌/◌, Bool, List, [], ◌∷◌, ◌++◌, length, drop, ltb, leb, ◌==◌,
  if◌then◌else◌, Option, none, some,
}
use pgpulse.Common.Text.{Text, text_eq}
use pgpulse.Common.Map.{Map, insert, delete, get_or}
pub mod Pruning
pub mod Answers
pub mod Window

pub record RateLimiter : Type 0 where
  pub attempts : Map Text (List ℕ)
  pub max_attempts : ℕ
  pub window : ℕ

unfoldable pub new_rate_limiter : ℕ → ℕ → RateLimiter
new_rate_limiter max_attempts window = record {
  attempts = [];
  max_attempts = max_attempts;
  window = window;
}

-- The loop of `pruneExpired`: how many entries from the front lie before the cutoff.
unfoldable pub expired : ℕ → List ℕ → ℕ
expired cutoff [] = 0
expired cutoff (t ∷ ts) = if ltb t cutoff then suc (expired cutoff ts) else 0

-- `if i > 0 { rl.attempts[ip] = entries[i:] }`
slice_front : ℕ → Text → Map Text (List ℕ) → Map Text (List ℕ)
slice_front i ip m = if ltb 0 i then insert ip (drop i (get_or [] ip m)) m else m

-- `if len(rl.attempts[ip]) == 0 { delete(rl.attempts, ip) }`
drop_empty : Text → Map Text (List ℕ) → Map Text (List ℕ)
drop_empty ip m = if length (get_or [] ip m) == 0 then delete ip m else m

unfoldable pub prune_expired : ℕ → Text → RateLimiter → RateLimiter
unfolding expired slice_front drop_empty
prune_expired now ip rl =
    let i = expired (now - rl.window) (get_or [] ip rl.attempts) in
    record rl { attempts = drop_empty ip (slice_front i ip rl.attempts) }

unfoldable pub allow : ℕ → Text → RateLimiter → Bool × RateLimiter
allow now ip rl =
    let pruned = prune_expired now ip rl in
    (ltb (length (get_or [] ip pruned.attempts)) rl.max_attempts, pruned)

unfoldable pub record_failure : ℕ → Text → RateLimiter → RateLimiter
record_failure now ip rl = record rl {
  attempts = insert ip (get_or [] ip rl.attempts ++ (now ∷ [])) rl.attempts;
}

-- `remaining` is window - (later - first), where `later` is the second reading of the clock. Without
-- entries, `entries[0]` panics: `none`.
unfoldable pub retry_seconds : ℕ → ℕ → List ℕ → Option ℕ
retry_seconds later window [] = none
retry_seconds later window (first ∷ _) =
    let remaining = window + first - later in
    some (if remaining == 0 then 0 else remaining / 1_000_000_000 + 1)

unfoldable pub retry_after : ℕ → ℕ → Text → RateLimiter → Option ℕ × RateLimiter
unfolding retry_seconds
retry_after now later ip rl =
    let pruned = prune_expired now ip rl in
    let entries = get_or [] ip pruned.attempts in
    (
      if ltb (length entries) rl.max_attempts
          then some 0
          else retry_seconds later rl.window entries,
      pruned,
    )
