-- ===== src/Auth/Login.antt =====
-- handleLogin of internal/api/auth.go, with rateLimitMiddleware of internal/api/server.go before it and
-- with authentication enabled. Requests come one after the other: two that run at once may both pass
-- the test of the limiter before either failure is recorded. The time of the last login is left out.
use pgpulse.Common.{
  ℕ, Bool, true, false, not, ◌||◌, Option, none, some, List, [], ◌∷◌, ◌=?◌, if◌then◌else◌,
}
use pgpulse.Common.Text.{Text, text, text_eq}
use pgpulse.Auth.RateLimit.{RateLimiter, allow, record_failure, retry_after}
use pgpulse.Auth.Tokens.{User, TokenPair, Response, ok, error, Jwt, JwtService, generate_token_pair}
use pgpulse.Auth.Users.{Call, get, Table, get_by_username}
pub mod Guesses

-- `later` is the time at which a failure is recorded, or the clock is read again for a refusal.
pub record Request : Type 0 where
  pub ip : Text
  pub username : Text
  pub password : Text
  pub now : ℕ
  pub later : ℕ

-- The user does not exist or the password is wrong, or another answer.
pub data Checked : Type 0 where
  wrong_credentials : Checked
  answered : Response TokenPair → Checked

-- Too many attempts, with the seconds to wait or `none` where reading them panics, or the handler's
-- answer.
pub data Answer : Type 0 where
  rate_limited : Option ℕ → Answer
  handled : Response TokenPair → Answer

module _ (fails : Call → Bool) (check : Text → Text → Bool) (jwt : Jwt) (s : JwtService) where
  sign_in : ℕ → User → Response TokenPair
  sign_in now user =
      if not user.active
      then error 401 (text "account deactivated")
      else elim (generate_token_pair jwt s now user) [
        | none ↦ error 500 (text "failed to generate tokens")
        | some pair ↦ ok pair
      ]

  check_user : Request → Option User → Checked
  unfolding sign_in
  check_user r none = wrong_credentials
  check_user r (some user) =
      if check r.password user.password_hash
      then answered (sign_in r.now user)
      else wrong_credentials

  unfoldable pub check_login : Request → Table → Checked
  unfolding check_user get_by_username
  check_login r users =
      if r.username =? [] || r.password =? []
      then answered (error 400 (text "username and password are required"))
      else if fails get
      then answered (error 500 (text "authentication failed"))
      else check_user r (get_by_username r.username users)

  unfoldable pub conclude : Request → Checked → RateLimiter → Answer × RateLimiter
  conclude r wrong_credentials rl =
      (handled (error 401 (text "invalid credentials")), record_failure r.later r.ip rl)
  conclude r (answered answer) rl = (handled answer, rl)

  unfoldable pub handle_login : Request → Table → RateLimiter → Answer × RateLimiter
  unfolding check_login conclude
  handle_login r users rl = conclude r (check_login r users) rl

  -- The middleware and, if it lets the request through, the handler.
  unfoldable pub login : Request → Table → RateLimiter → Answer × RateLimiter
  unfolding handle_login
  login r users rl =
      let (allowed, pruned) = allow r.now r.ip rl in
      if allowed
      then handle_login r users pruned
      else let (seconds, pruned') = retry_after r.now r.later r.ip pruned in
        (rate_limited seconds, pruned')
