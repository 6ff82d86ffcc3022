-- ===== src/Auth/Users/Refreshing.antt =====
-- Which tokens the refresh endpoint takes where no refresh secret is configured.
use pgpulse.Common.{ℕ, ◌+◌, ◌<◌, ◌≡◌, Bool, true, false, some, [], arith}
use pgpulse.Common.Text.{Text, text_eq, text_beq}
use pgpulse.Auth.Tokens.{
  User, access, Jwt, JwtLaws, ok, make_service, claims_of, generate_token, generate_access_token,
  validate_refresh_token,
}
use pgpulse.Auth.Users.{Call, get, Table, get_by_id, handle_refresh}

-- Where no refresh secret is configured, the refresh endpoint takes an access token that has not
-- expired, its end cut to whole seconds, for a refresh token: it answers with a new access token for its user, if the user is still
-- there and active and signing works.
pub handle_refresh-generate_access_token :
    (jwt : Jwt)
    → JwtLaws jwt
    → (fails : Call → Bool) (jwt_secret : Text) (access_ttl refresh_ttl issued now : ℕ)
      (user : User) (token next : Text) (users : Table)
    → let s = make_service jwt_secret [] access_ttl refresh_ttl in
      generate_access_token jwt s issued user ≡ some token
      → now < jwt.numeric_date (issued + access_ttl)
      → fails get ≡ false
      → get_by_id user.id users ≡ some user
      → user.active ≡ true
      → generate_access_token jwt s now user ≡ some next
      → handle_refresh fails jwt s now token users ≡ ok next
unfolding handle_refresh validate_refresh_token generate_access_token generate_token make_service
    claims_of text_beq
handle_refresh-generate_access_token jwt laws fails jwt_secret access_ttl refresh_ttl issued now
      user token next users signed early found there active again =
    let s = make_service jwt_secret [] access_ttl refresh_ttl in
    let parsed =
      laws.parse-sign now jwt_secret token (claims_of jwt s user access issued access_ttl) signed
        (laws.numeric_date_twice issued) (laws.numeric_date_twice (issued + access_ttl)) early in
    ground (arith, parsed, again, there, active, found)
