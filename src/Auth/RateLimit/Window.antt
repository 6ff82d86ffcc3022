-- ===== src/Auth/RateLimit/Window.antt =====
-- The rate limiter against its specification: a log of all failures, of which those inside the window
-- count.
use mathlib.Core.Path.{subst}
use pgpulse.Common.{
  keep-All, ℕ, ◌+◌, ◌≤◌, ◌≡◌, refl, List, [], ◌∷◌, length, ltb, arith, keep, if◌then◌else◌, ◌=?◌,
  Bool-cases, inl, inr, All, ◌++◌, All-append, some,
}
use pgpulse.Common.Text.{Text, text_eq, text_beq_iff}
use pgpulse.Common.Map.{lookup, get_or, get_or-insert}
use pgpulse.Auth.RateLimit.Pruning.{
  fresh, SortedFrom, SortedFrom-snoc, All-later, SortedFrom-keep, keep-fresh_twice, keep-append,
  drop-expired, get_or-prune_expired,
}
use pgpulse.Auth.RateLimit.{
  RateLimiter, prune_expired, record_failure, retry_seconds, allow, retry_after, insert,
  new_rate_limiter,
}
use pgpulse.Auth.RateLimit.Answers.{
  Event, failure, attempt, refusal, wait, step, answers, Log, log_failure, IsAnswer, spec_log,
  AreAnswers, refusal-IsAnswer, instant, Ordered,
}

-- What relates the limiter to the log at an instant.
record Tracks (n w now : ℕ) (log : Log) (rl : RateLimiter) : Type 0 where
  limit : rl.max_attempts ≡ n
  span : rl.window ≡ w
  sorted : (j : Text) → SortedFrom 0 (get_or [] j rl.attempts)
  past : (j : Text) → All (λ t. t ≤ now) (get_or [] j rl.attempts)
  same :
      (j : Text) (t : ℕ)
      → now ≤ t
      → keep (fresh w t) (get_or [] j rl.attempts) ≡ keep (fresh w t) (log j)

module _ (n w : ℕ) {last : ℕ} {log : Log} {rl : RateLimiter} (k : Tracks n w last log rl) where
  -- What pruning leaves of an address: its entries inside the window.
  get_or-pruned :
      (now : ℕ) (ip j : Text)
      → get_or [] j (prune_expired now ip rl).attempts ≡ (
          if ip =? j then keep (fresh w now) (get_or [] j rl.attempts) else get_or [] j rl.attempts)
  get_or-pruned now ip j = ground (
    arith,
    get_or-prune_expired now ip j rl,
    text_beq_iff ip j,
    drop-expired w now 0 (get_or [] ip rl.attempts) (k.sorted ip),
    k.span,
  )

  prune_expired-Tracks :
      (now : ℕ) (ip : Text) → last ≤ now → Tracks n w now log (prune_expired now ip rl)
  unfolding prune_expired
  prune_expired-Tracks now ip h = record {
    limit = k.limit;
    span = k.span;
    sorted = λ j. entries_sorted j;
    past = λ j. entries_past j;
    same = λ j t g. entries_same j t g;
  }
    where
      entries_sorted : (j : Text) → SortedFrom 0 (get_or [] j (prune_expired now ip rl).attempts)
      entries_sorted j = elim (Bool-cases (ip =? j)) [
        | inl e ↦ rw (get_or-pruned now ip j, e) (SortedFrom-keep _ 0 _ (k.sorted j))
        | inr e ↦ rw (get_or-pruned now ip j, e) (k.sorted j)
      ]

      entries_past :
          (j : Text) → All (λ t. t ≤ now) (get_or [] j (prune_expired now ip rl).attempts)
      entries_past j = elim (Bool-cases (ip =? j)) [
        | inl e ↦
            rw (get_or-pruned now ip j, e)
              (keep-All (λ t. t ≤ now) _ _ (All-later last now _ h (k.past j)))
        | inr e ↦ rw (get_or-pruned now ip j, e) (All-later last now _ h (k.past j))
      ]

      entries_same :
          (j : Text) (t : ℕ)
          → now ≤ t
          → keep (fresh w t) (get_or [] j (prune_expired now ip rl).attempts)
            ≡ keep (fresh w t) (log j)
      entries_same j t g = elim (Bool-cases (ip =? j)) [
        | inl e ↦
            rw (get_or-pruned now ip j, e, keep-fresh_twice w now t (get_or [] j rl.attempts) g)
              (k.same j t (omega arith))
        | inr e ↦ rw (get_or-pruned now ip j, e) (k.same j t (omega arith))
      ]

  record_failure-Tracks :
      (now : ℕ) (ip : Text)
      → last ≤ now
      → Tracks n w now (log_failure ip now log) (record_failure now ip rl)
  unfolding record_failure
  record_failure-Tracks now ip h = record {
    limit = k.limit;
    span = k.span;
    sorted = λ j. elim (Bool-cases (ip =? j)) [
      | inl e ↦
          rw (appended j, e)
            (SortedFrom-snoc 0 now _ (omega arith) (k.sorted ip)
              (All-later last now _ h (k.past ip)))
      | inr e ↦ rw (appended j, e) (k.sorted j)
    ];
    past = λ j. elim (Bool-cases (ip =? j)) [
      | inl e ↦
          rw (appended j, e)
            (All-append (λ t. t ≤ now) _ _ (All-later last now _ h (k.past ip)) (omega arith, tt))
      | inr e ↦ rw (appended j, e) (All-later last now _ h (k.past j))
    ];
    same = λ j t g. elim (Bool-cases (ip =? j)) [
      | inl e ↦ ground (
        arith,
        appended j,
        text_beq_iff ip j,
        keep-append (fresh w t) (get_or [] j rl.attempts) (now ∷ []),
        keep-append (fresh w t) (log j) (now ∷ []),
        k.same j t (omega arith),
      )
      | inr e ↦ rw (appended j, e) (k.same j t (omega arith))
    ];
  }
    where
      appended :
          (j : Text)
          → get_or [] j (insert ip (get_or [] ip rl.attempts ++ (now ∷ [])) rl.attempts)
            ≡ (if ip =? j then get_or [] ip rl.attempts ++ (now ∷ []) else get_or [] j rl.attempts)
      appended j = get_or-insert [] ip j (get_or [] ip rl.attempts ++ (now ∷ [])) rl.attempts

  -- What the entries of an address are after pruning, by the log.
  get_or-pruned_log :
      (now : ℕ) (ip : Text)
      → last ≤ now
      → get_or [] ip (prune_expired now ip rl).attempts ≡ keep (fresh w now) (log ip)
  get_or-pruned_log now ip h =
      ground (arith, get_or-pruned now ip ip, text_beq_iff ip ip, k.same ip now h)

  step-Tracks :
      (e : Event)
      → last ≤ instant e
      → Tracks n w (instant e) (spec_log log e) (step e rl).1 × IsAnswer n w log e (step e rl).0
  unfolding step allow retry_after
  step-Tracks (failure ip now) h = (record_failure-Tracks now ip h, refl)
  step-Tracks (attempt ip now) h =
      (prune_expired-Tracks now ip h, rw (get_or-pruned_log now ip h, k.limit))
  step-Tracks (refusal ip now lag) h = (
    prune_expired-Tracks now ip h,
    subst
        (λ r. IsAnswer n w log (refusal ip now lag) (
          wait
            (if ltb (length counted) r.0 then some 0 else retry_seconds (now + lag) r.1 counted)))
        same_limits (refusal-IsAnswer n w log ip now lag counted (get_or-pruned_log now ip h)),
  )
    where
      counted : List ℕ
      counted = get_or [] ip (prune_expired now ip rl).attempts

      same_limits : ◌≡◌ {A = ℕ × ℕ} (n, w) (rl.max_attempts, rl.window)
      same_limits = rw (k.limit, k.span) refl

answers-Tracks :
    (n w last : ℕ) (log : Log) (rl : RateLimiter) (es : List Event)
    → Tracks n w last log rl
    → Ordered last es
    → AreAnswers n w log es (answers rl es)
unfolding answers
answers-Tracks n w last log rl [] k o = tt
answers-Tracks n w last log rl (e ∷ es) k (h, o) =
    let (k', same) = step-Tracks n w k e h in
    (same, answers-Tracks n w (instant e) (spec_log log e) (step e rl).1 es k' o)

-- For every sequence of failed logins, tests and refusals whose instants do not fall, a new limiter
-- answers each as the log of all failures so far says. A test allows an address exactly when fewer
-- than the maximum of its failures are at most one window old. The seconds to wait are 0 where it
-- would allow the address. Where not, they are the fewest whole seconds after which the oldest of
-- these failures is more than one window old, and 0 if it is a window old at the second reading of
-- the clock; with none of them, which takes a maximum of 0, the call panics.
pub answers_correct :
    (n w : ℕ) (es : List Event)
    → Ordered 0 es
    → AreAnswers n w (λ ip. []) es (answers (new_rate_limiter n w) es)
unfolding new_rate_limiter get_or lookup
answers_correct n w es o = answers-Tracks n w 0 (λ ip. []) (new_rate_limiter n w) es start o
  where
    start : Tracks n w 0 (λ ip. []) (new_rate_limiter n w)
    start = record {
      limit = refl;
      span = refl;
      sorted = λ j. tt;
      past = λ j. tt;
      same = λ j t g. refl;
    }
