-- ===== src/Auth/Login/Guesses.antt =====
-- How many passwords an address can try.
use pgpulse.Common.{
  ℕ, ◌+◌, ◌-◌, ◌≤◌, ◌<◌, ◌≡◌, refl, Bool, true, false, List, [], ◌∷◌, ◌++◌, ◌=?◌, if◌then◌else◌,
  leb, ltb, length, length-append, length-keep, keep, drop, All, arith, Bool-cases, inl, inr, ◌&&◌,
  ltb→lt,
}
use pgpulse.Common.Text.{Text, text_eq, text_beq_iff}
use pgpulse.Common.Map.{get_or, get_or-insert}
use pgpulse.Auth.RateLimit.{RateLimiter, expired, prune_expired, allow, record_failure, retry_after}
use pgpulse.Auth.RateLimit.Pruning.{get_or-prune_expired, keep-append}
use pgpulse.Auth.Tokens.{Jwt, JwtService}
use pgpulse.Auth.Users.{Call, Table}
use pgpulse.Auth.Login.{
  Request, Checked, wrong_credentials, answered, check_login, handle_login, login, conclude,
}

-- The failures of an address that a limiter holds from an instant on.
abbrev since : ℕ → Text → RateLimiter → ℕ
since a ip rl = length (keep (leb a) (get_or [] ip rl.attempts))

keep-drop-expired :
    (a cutoff : ℕ) (ts : List ℕ)
    → cutoff ≤ a
    → keep (leb a) (drop (expired cutoff ts) ts) ≡ keep (leb a) ts
unfolding expired
keep-drop-expired a cutoff [] h = refl
keep-drop-expired a cutoff (t ∷ ts) h = elim (Bool-cases (ltb t cutoff)) [
  | inl e ↦ ground (arith, e, h, keep-drop-expired a cutoff ts h)
  | inr e ↦ rw e refl
]

since-prune_expired :
    (a now : ℕ) (ip j : Text) (rl : RateLimiter)
    → now ≤ a + rl.window
    → since a ip (prune_expired now j rl) ≡ since a ip rl
since-prune_expired a now ip j rl h = ground (
  arith,
  get_or-prune_expired now j ip rl,
  text_beq_iff j ip,
  keep-drop-expired a (now - rl.window) (get_or [] j rl.attempts) (omega (arith, h)),
)

since-record_failure :
    (a now : ℕ) (ip j : Text) (rl : RateLimiter)
    → a ≤ now
    → since a ip (record_failure now j rl) ≡ since a ip rl + (if j =? ip then 1 else 0)
unfolding record_failure
since-record_failure a now ip j rl h = elim (Bool-cases (j =? ip)) [
  | inl e ↦
      let same = (text_beq_iff j ip).0 e in
      rw same (
        ground (
          arith,
          h,
          text_beq_iff ip ip,
          get_or-insert [] ip ip (get_or [] ip rl.attempts ++ (now ∷ [])) rl.attempts,
          keep-append (leb a) (get_or [] ip rl.attempts) (now ∷ []),
          length-append (keep (leb a) (get_or [] ip rl.attempts)) (keep (leb a) (now ∷ [])),
        ))
  | inr e ↦
      ground (arith, e, get_or-insert [] j ip (get_or [] j rl.attempts ++ (now ∷ [])) rl.attempts)
]

is_wrong : Checked → Bool
is_wrong wrong_credentials = true
is_wrong (answered answer) = false

count : Bool → ℕ
count b = if b then 1 else 0

module _ (fails : Call → Bool) (check : Text → Text → Bool) (jwt : Jwt) (s : JwtService)
    (users : Table) where
  -- Whether a request of the address is let through and its credentials are wrong.
  unfoldable pub is_guess : Text → Request → RateLimiter → Bool
  unfolding is_wrong
  is_guess ip r rl =
      (allow r.now r.ip rl).0 && (r.ip =? ip) && is_wrong (check_login fails check jwt s r users)

  unfoldable pub guesses : Text → List Request → RateLimiter → ℕ
  unfolding is_guess count
  guesses ip [] rl = 0
  guesses ip (r ∷ rs) rl =
      count (is_guess ip r rl) + guesses ip rs (login fails check jwt s r users rl).1

  -- The request comes in one window from the instant on.
  abbrev pub InWindow : ℕ → ℕ → Request → Type 0
  InWindow a w r = (a ≤ r.later) × (r.now ≤ a + w)

  conclude-since :
      (a : ℕ) (ip : Text) (r : Request) (c : Checked) (rl : RateLimiter)
      → a ≤ r.later
      → let rl' = (conclude fails check jwt s r c rl).1 in
        (rl'.window ≡ rl.window)
        × (rl'.max_attempts ≡ rl.max_attempts)
        × (since a ip rl' ≡ since a ip rl + count ((r.ip =? ip) && is_wrong c))
  unfolding conclude is_wrong count record_failure
  conclude-since a ip r wrong_credentials rl h =
      (refl, refl, ground (arith, since-record_failure a r.later ip r.ip rl h))
  conclude-since a ip r (answered answer) rl h = (refl, refl, ground arith)

  login-since :
      (a : ℕ) (ip : Text) (r : Request) (rl : RateLimiter)
      → InWindow a rl.window r
      → let rl' = (login fails check jwt s r users rl).1 in
        (rl'.window ≡ rl.window)
        × (rl'.max_attempts ≡ rl.max_attempts)
        × (count (is_guess ip r rl) + (rl.max_attempts - since a ip rl')
            ≤ rl.max_attempts - since a ip rl)
  unfolding login handle_login is_guess allow retry_after prune_expired count
  login-since a ip r rl (late, early) =
      let p = prune_expired r.now r.ip rl in
      let same = since-prune_expired a r.now ip r.ip rl early in
      let again = since-prune_expired a r.now ip r.ip p early in
      let c = conclude-since a ip r (check_login fails check jwt s r users) p late in
      let held = length-keep (leb a) (get_or [] ip p.attempts) in
      elim (Bool-cases (ltb (length (get_or [] r.ip p.attempts)) rl.max_attempts)) [
        | inl e ↦ rw e (
          c.0,
          c.1,
          elim (Bool-cases (r.ip =? ip)) [
            | inl i ↦
                let equal = (text_beq_iff r.ip ip).0 i in
                let room : length (get_or [] ip p.attempts) < rl.max_attempts =
                  rw (← equal) (ltb→lt _ _ e) in
                ground (arith, c.2, same, i, held, room)
            | inr i ↦ ground (arith, c.2, same, i)
          ],
        )
        | inr e ↦ rw e (refl, refl, omega (arith, same, again))
      ]

  -- Of any login requests one after the other, from whatever addresses and for whatever users,
  -- that are tested no later than one window after an instant and whose failures are recorded from
  -- that instant on, no more than the limiter's maximum are let through from one address with
  -- wrong credentials, whatever the limiter held before.
  pub guesses_bounded :
      (a : ℕ) (ip : Text) (rs : List Request) (rl : RateLimiter)
      → All (InWindow a rl.window) rs
      → guesses ip rs rl ≤ rl.max_attempts
  unfolding guesses
  guesses_bounded a ip rs rl h = omega (arith, left rs rl h)
    where
      left :
          (rest : List Request) (rl : RateLimiter)
          → All (InWindow a rl.window) rest
          → guesses ip rest rl ≤ rl.max_attempts - since a ip rl
      left [] rl h = omega arith
      left (r ∷ rest) rl (h, hs) =
          let (window, max, fewer) = login-since a ip r rl h in
          let rl' = (login fails check jwt s r users rl).1 in
          let inside : All (InWindow a rl'.window) rest = rw window hs in
          omega (arith, max, fewer, left rest rl' inside)
