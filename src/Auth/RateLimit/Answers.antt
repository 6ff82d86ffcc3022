-- ===== src/Auth/RateLimit/Answers.antt =====
-- What a rate limiter has to answer to a sequence of events, told from a log of all failures.
use pgpulse.Common.{
  ℕ, ◌+◌, ◌≤◌, ◌≡◌, refl, Bool, List, [], ◌∷◌, length, ltb, arith, keep, if◌then◌else◌, ◌=?◌,
  Bool-cases, inl, inr, ◌++◌, Option, ◌⊎◌, ◌<◌, some, ◌-◌, ◌*◌, none, ltb→lt, ◌==◌, ◌/◌,
}
use pgpulse.Common.Text.{Text, text_eq}
use pgpulse.Auth.RateLimit.Pruning.{fresh}
use pgpulse.Auth.RateLimit.{RateLimiter, record_failure, retry_seconds, allow, retry_after}

-- What the API does with the limiter, in the order in which it takes the mutex: a failed login, the
-- test of the middleware, and the seconds that it tells a refused client to wait, for which the clock
-- is read a second time, `lag` after the first.
pub data Event : Type 0 where
  failure : Text → ℕ → Event
  attempt : Text → ℕ → Event
  refusal : Text → ℕ → ℕ → Event

pub data Answer : Type 0 where
  recorded : Answer
  allowed : Bool → Answer
  wait : Option ℕ → Answer

unfoldable pub step : Event → RateLimiter → Answer × RateLimiter
step (failure ip now) rl = (recorded, record_failure now ip rl)
step (attempt ip now) rl = let (ok, rl') = allow now ip rl in (allowed ok, rl')
step (refusal ip now lag) rl = let (n, rl') = retry_after now (now + lag) ip rl in (wait n, rl')

unfoldable pub answers : RateLimiter → List Event → List Answer
answers rl [] = []
answers rl (e ∷ es) = (step e rl).0 ∷ answers (step e rl).1 es

-- The specification keeps the instants of all failures of each address and forgets none.
abbrev pub Log : Type 0
Log = Text → List ℕ

abbrev pub log_failure : Text → ℕ → Log → Log
log_failure ip now log j = if ip =? j then log j ++ (now ∷ []) else log j

-- The seconds that a client has to wait at an instant until another is over: none if it is over, else
-- the fewest whole seconds that are longer than what is left.
abbrev pub IsWait : ℕ → ℕ → ℕ → Type 0
IsWait later due seconds =
    ((due ≤ later) × (seconds ≡ 0))
    ⊎ ((later < due)
        × (due < later + seconds * 1_000_000_000)
        × (later + seconds * 1_000_000_000 ≤ due + 1_000_000_000))

-- What a refusal is told when it does not pass: the wait until the oldest failure that counts has
-- left the window. With none that counts, which is refused only if the maximum is 0, the code panics.
abbrev pub IsRefusal : ℕ → ℕ → List ℕ → Option ℕ → Type 0
IsRefusal later w [] answer = answer ≡ none
IsRefusal later w (oldest ∷ _) answer =
    (seconds : ℕ) × (answer ≡ some seconds) × IsWait later (oldest + w) seconds

abbrev pub IsAnswer : ℕ → ℕ → Log → Event → Answer → Type 0
IsAnswer n w log (failure ip now) a = a ≡ recorded
IsAnswer n w log (attempt ip now) a = a ≡ allowed (ltb (length (keep (fresh w now) (log ip))) n)
IsAnswer n w log (refusal ip now lag) a =
    let counted = keep (fresh w now) (log ip) in
    ((length counted < n) × (a ≡ wait (some 0)))
    ⊎ ((n ≤ length counted)
        × ((told : Option ℕ) × (a ≡ wait told) × IsRefusal (now + lag) w counted told))

abbrev pub spec_log : Log → Event → Log
spec_log log (failure ip now) = log_failure ip now log
spec_log log (attempt ip now) = log
spec_log log (refusal ip now lag) = log

abbrev pub AreAnswers : ℕ → ℕ → Log → List Event → List Answer → Type 0
AreAnswers n w log [] [] = Unit
AreAnswers n w log [] (a ∷ rest) = ⊥
AreAnswers n w log (e ∷ es) [] = ⊥
AreAnswers n w log (e ∷ es) (a ∷ rest) =
    IsAnswer n w log e a × AreAnswers n w (spec_log log e) es rest

retry_seconds-IsRefusal :
    (later w : ℕ) (counted : List ℕ) → IsRefusal later w counted (retry_seconds later w counted)
unfolding retry_seconds
retry_seconds-IsRefusal later w [] = refl
retry_seconds-IsRefusal later w (oldest ∷ ts) = (_, refl, whole (w + oldest - later) refl)
  where
    whole :
        (left : ℕ)
        → left ≡ w + oldest - later
        → IsWait later (oldest + w) (if left == 0 then 0 else left / 1_000_000_000 + 1)
    whole left e = ground arith

pub refusal-IsAnswer :
    (n w : ℕ) (log : Log) (ip : Text) (now lag : ℕ) (counted : List ℕ)
    → counted ≡ keep (fresh w now) (log ip)
    → IsAnswer n w log
        (refusal ip now lag)
        (wait (if ltb (length counted) n then some 0 else retry_seconds (now + lag) w counted))
refusal-IsAnswer n w log ip now lag counted e = elim (Bool-cases (ltb (length counted) n)) [
  | inl few ↦ inl (rw (← e) (ltb→lt _ _ few), rw few refl)
  | inr many ↦ inr (
    rw (← e) (ground (arith, many)),
    (
      retry_seconds (now + lag) w counted,
      rw many refl,
      rw (← e) (retry_seconds-IsRefusal (now + lag) w counted),
    ),
  )
]

abbrev pub instant : Event → ℕ
instant (failure ip now) = now
instant (attempt ip now) = now
instant (refusal ip now lag) = now

abbrev pub Ordered : ℕ → List Event → Type 0
Ordered low [] = Unit
Ordered low (e ∷ es) = (low ≤ instant e) × Ordered (instant e) es
