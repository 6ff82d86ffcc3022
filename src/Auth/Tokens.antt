-- ===== src/Auth/Tokens.antt =====
-- internal/auth/jwt.go and middleware.go, and the refresh endpoint of internal/api/auth.go. Signing
-- and verifying a token, and comparing texts without regard to case, are the work of libraries and
-- are parameters.
use pgpulse.Common.{
  ℕ, ◌+◌, Bool, true, false, not, ◌&&◌, Option, none, some, List, [], ◌∷◌, ◌==◌, if◌then◌else◌,
  ◌=?◌, ◌≡◌, ◌<◌, ◌≤◌,
}
use pgpulse.Common.Text.{Text, text, text_eq}
use pgpulse.Auth.Rbac.{has_permission, permissions_for_role, super_admin, view_all}
pub mod Access

pub data TokenType : Type 0 where
  access : TokenType
  refresh : TokenType

abbrev pub is_access : TokenType → Bool
is_access access = true
is_access refresh = false

-- `issued_at` and `expires_at` are the registered claims; the issuer is always the same.
pub record Claims : Type 0 where
  pub user_id : ℕ
  pub username : Text
  pub role : Text
  pub token_type : TokenType
  pub permissions : List Text
  pub issued_at : ℕ
  pub expires_at : ℕ

-- The fields of `User` that the modelled code reads or writes.
pub record User : Type 0 where
  pub id : ℕ
  pub username : Text
  pub password_hash : Text
  pub role : Text
  pub active : Bool

-- github.com/golang-jwt/jwt: `numeric_date` is what NewNumericDate keeps of an instant, which it cuts
-- to jwt.TimePrecision, `sign` may fail, and `parse` gives the claims of a token that the secret
-- signed and that has not expired at the instant.
pub record Jwt : Type 0 where
  pub numeric_date : ℕ → ℕ
  pub sign : Text → Claims → Option Text
  pub parse : ℕ → Text → Text → Option Claims

-- A date is cut to whole seconds, which cutting leaves as they are. A token whose dates are so cut
-- parses with the secret that signed it until it expires.
pub record JwtLaws (jwt : Jwt) : Type 0 where
  pub numeric_date_early : (t : ℕ) → jwt.numeric_date t ≤ t
  pub numeric_date_late : (t : ℕ) → t < jwt.numeric_date t + 1_000_000_000
  pub numeric_date_twice : (t : ℕ) → jwt.numeric_date (jwt.numeric_date t) ≡ jwt.numeric_date t
  pub parse-sign :
      (now : ℕ) (secret token : Text) (c : Claims)
      → jwt.sign secret c ≡ some token
      → jwt.numeric_date c.issued_at ≡ c.issued_at
      → jwt.numeric_date c.expires_at ≡ c.expires_at
      → now < c.expires_at
      → jwt.parse now secret token ≡ some c

pub record JwtService : Type 0 where
  pub secret : Text
  pub refresh_secret : Text
  pub access_token_ttl : ℕ
  pub refresh_token_ttl : ℕ

-- The service as main.go builds it: a missing refresh secret defaults to the other one.
unfoldable pub make_service : Text → Text → ℕ → ℕ → JwtService
make_service jwt_secret refresh_secret access_ttl refresh_ttl = record {
  secret = jwt_secret;
  refresh_secret = if refresh_secret =? [] then jwt_secret else refresh_secret;
  access_token_ttl = access_ttl;
  refresh_token_ttl = refresh_ttl;
}

pub record TokenPair : Type 0 where
  pub access_token : Text
  pub refresh_token : Text

-- What middleware and handlers answer: the request goes on with the claims, or a status and a
-- message.
pub data Response {ℓ} (A : Type ℓ) : Type ℓ where
  ok : A → Response A
  error : ℕ → Text → Response A

unauthorized {ℓ} : {A : Type ℓ} → Text → Response A
unauthorized message = error 401 message

module _ (jwt : Jwt) (s : JwtService) where
  unfoldable pub claims_of : User → TokenType → ℕ → ℕ → Claims
  claims_of user kind now ttl = record {
    user_id = user.id;
    username = user.username;
    role = user.role;
    token_type = kind;
    permissions = permissions_for_role user.role;
    issued_at = jwt.numeric_date now;
    expires_at = jwt.numeric_date (now + ttl);
  }

  unfoldable pub generate_token : User → TokenType → ℕ → ℕ → Option Text
  unfolding claims_of
  generate_token user kind now ttl =
      jwt.sign (if is_access kind then s.secret else s.refresh_secret) (claims_of user kind now ttl)

  unfoldable pub generate_token_pair : ℕ → User → Option TokenPair
  unfolding generate_token
  generate_token_pair now user = elim (generate_token user access now s.access_token_ttl) [
    | none ↦ none
    | some a ↦ elim (generate_token user refresh now s.refresh_token_ttl) [
      | none ↦ none
      | some r ↦ some (record { access_token = a; refresh_token = r })
    ]
  ]

  unfoldable pub generate_access_token : ℕ → User → Option Text
  unfolding generate_token
  generate_access_token now user = generate_token user access now s.access_token_ttl

  unfoldable pub validate_token : ℕ → Text → Option Claims
  validate_token now token = jwt.parse now s.secret token

  unfoldable pub validate_refresh_token : ℕ → Text → Option Claims
  validate_refresh_token now token = jwt.parse now s.refresh_secret token

-- strings.SplitN(header, " ", 2), where there is a second part.
unfoldable pub split_space : Text → Option (Text × Text)
split_space [] = none
split_space (c ∷ rest) =
    if c == b' '
    then some ([], rest)
    else elim (split_space rest) [ none ↦ none | some (a, b) ↦ some (c ∷ a, b) ]

module _ (jwt : Jwt) (s : JwtService) (equal_fold : Text → Text → Bool) where
  -- The token of a header of the right form.
  bearer_token : Text → Option Text
  unfolding split_space
  bearer_token header = elim (split_space header) [
    | none ↦ none
    | some (scheme, token) ↦ if equal_fold scheme (text "bearer") then some token else none
  ]

  unfoldable pub require_auth : ℕ → Text → Response Claims
  unfolding bearer_token unauthorized validate_token
  require_auth now header =
      if header =? []
      then unauthorized (text "missing Authorization header")
      else elim (bearer_token header) [
        | none ↦ unauthorized (text "invalid Authorization header format")
        | some token ↦ elim (validate_token jwt s now token) [
          | none ↦ unauthorized (text "invalid or expired token")
          | some c ↦
              if not (is_access c.token_type)
              then unauthorized (text "expected access token")
              else ok c
        ]
      ]

-- The claims that the middleware injects when authentication is disabled.
abbrev pub implicit_admin : Claims
implicit_admin = record {
  user_id = 0;
  username = text "admin";
  role = super_admin;
  token_type = access;
  permissions = permissions_for_role super_admin;
  issued_at = 0;
  expires_at = 0;
}

pub data AuthMode : Type 0 where
  auth_enabled : AuthMode
  auth_disabled : AuthMode

unfoldable pub auth_middleware :
    Jwt → JwtService → (Text → Text → Bool) → AuthMode → ℕ → Text → Response Claims
auth_middleware jwt s equal_fold auth_disabled now header = ok implicit_admin
auth_middleware jwt s equal_fold auth_enabled now header = require_auth jwt s equal_fold now header

-- The claims in the request's context, if any, are the argument; `ok` calls the next handler.
unfoldable pub require_permission : Text → Option Claims → Response Claims
unfolding unauthorized
require_permission perm none = unauthorized (text "authentication required")
require_permission perm (some c) =
    if not (has_permission c.role perm) then error 403 (text "insufficient permissions") else ok c

-- The required role is not looked at.
unfoldable pub require_role : Text → Option Claims → Response Claims
unfolding unauthorized
require_role required_role none = unauthorized (text "authentication required")
require_role required_role (some c) =
    if not (has_permission c.role view_all)
    then error 403 (text "insufficient permissions")
    else ok c
