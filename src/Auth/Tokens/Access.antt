-- ===== src/Auth/Tokens/Access.antt =====
-- Which requests the authentication middleware lets through.
use pgpulse.Common.{
  ℕ, ◌+◌, ◌<◌, ◌≡◌, refl, ◌↔◌, Bool, true, false, some, [], ◌∷◌, ◌++◌, arith, Option-cases, inl,
  inr, ◌=?◌, ◌≤◌,
}
use pgpulse.Common.Text.{Text, text, text_eq, text_beq}
use pgpulse.Auth.Rbac.{has_permission}
use pgpulse.Auth.Tokens.{
  Claims, access, User, Jwt, JwtLaws, JwtService, ok, split_space, require_auth, require_permission,
  claims_of, generate_access_token,
}

split_space_sound :
    (header scheme token : Text)
    → split_space header ≡ some (scheme, token)
    → header ≡ scheme ++ (b' ' ∷ token)
unfolding split_space
split_space_sound [] scheme token h = cc
split_space_sound (c ∷ rest) scheme token h = elim (Option-cases (split_space rest)) [
  | inl e ↦ ground (arith, e)
  | inr (p, e) ↦ ground (arith, e, split_space_sound rest p.0 p.1)
]

module _ (jwt : Jwt) (s : JwtService) (equal_fold : Text → Text → Bool) where
  -- A request passes the middleware only with a header that is a scheme which equals "bearer"
  -- without regard to case, a space and a token, where the token parses with the access secret at
  -- that instant to the claims that go on with the request, and these are of an access token.
  pub require_auth_sound :
      (now : ℕ) (header : Text) (c : Claims)
      → require_auth jwt s equal_fold now header ≡ ok c
      → (scheme : Text) × (token : Text) × (header ≡ scheme ++ (b' ' ∷ token))
        × (equal_fold scheme (text "bearer") ≡ true)
        × (jwt.parse now s.secret token ≡ some c)
        × (c.token_type ≡ access)
  unfolding require_auth
  require_auth_sound now header c h = elim (Option-cases (split_space header)) [
    | inl e ↦ absurd (ground (arith, e))
    | inr ((scheme, token), e) ↦ (
      scheme,
      token,
      split_space_sound header scheme token e,
      ground (arith, e),
      ground (arith, e),
      ground (arith, e),
    )
  ]

  split_space-Bearer :
      (token : Text) → split_space (text "Bearer" ++ (b' ' ∷ token)) ≡ some (text "Bearer", token)
  unfolding split_space text
  split_space-Bearer token = refl

  header-ne-nil : (token : Text) → ((text "Bearer" ++ (b' ' ∷ token)) =? []) ≡ false
  unfolding text text_beq
  header-ne-nil token = refl

  -- An access token that the service issued, behind the scheme Bearer, passes the middleware with
  -- the user's claims until the whole second in which its lifetime ends begins, which is less than a
  -- second before that end; the permission check behind it then passes exactly when
  -- the user's role has the permission.
  pub require_auth-generate_token :
      JwtLaws jwt
      → (user : User) (issued now : ℕ) (token : Text) (perm : Text)
      → generate_access_token jwt s issued user ≡ some token
      → now < jwt.numeric_date (issued + s.access_token_ttl)
      → equal_fold (text "Bearer") (text "bearer") ≡ true
      → let c = claims_of jwt s user access issued s.access_token_ttl in
        (require_auth jwt s equal_fold now (text "Bearer" ++ (b' ' ∷ token)) ≡ ok c)
        × (jwt.numeric_date (issued + s.access_token_ttl) ≤ issued + s.access_token_ttl)
        × (issued + s.access_token_ttl
            < jwt.numeric_date (issued + s.access_token_ttl) + 1_000_000_000)
        × ((require_permission perm (some c) ≡ ok c) ↔ (has_permission user.role perm ≡ true))
  unfolding require_auth generate_access_token require_permission claims_of
  require_auth-generate_token laws user issued now token perm signed early folds =
      let parsed =
        laws.parse-sign now s.secret token (claims_of jwt s user access issued s.access_token_ttl)
          signed (laws.numeric_date_twice issued)
          (laws.numeric_date_twice (issued + s.access_token_ttl)) early in
      (
        ground (arith, split_space-Bearer token, header-ne-nil token, parsed),
        laws.numeric_date_early (issued + s.access_token_ttl),
        laws.numeric_date_late (issued + s.access_token_ttl),
        (λ h. ground arith, λ h. ground arith),
      )
