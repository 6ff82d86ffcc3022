-- ===== src/Auth/Samples.antt =====
-- Tests of internal/auth and of the user endpoints, and the theorems at concrete inputs.
use pgpulse.Common.Map.{lookup, insert, delete, get_or}
use pgpulse.Auth.Rbac.{
  has_permission, has_permission_table, valid_role, super_admin, roles_admin, dba, view_all,
  user_management, self_management,
}
use pgpulse.Auth.Login.{Request}
use pgpulse.Auth.Login.Guesses.{guesses, guesses_bounded}
use pgpulse.Auth.Users.Refreshing.{handle_refresh-generate_access_token}
use pgpulse.Auth.Users.{handle_refresh}
use pgpulse.Auth.Users.Escalation.{Holds, no_escalation}
use pgpulse.Auth.Users.Administrators.{
  admins, delete-keeps_admins, deletes-lose_admins, DistinctIds, update-loses_admins,
  handle_admin_reset_password_lem,
}
use pgpulse.Auth.Users.{
  Call, Table, get_by_id, count_active_by_role, handle_register, handle_update_user,
  handle_delete_user, handle_admin_reset_password,
}
use pgpulse.Auth.Tokens.Access.{require_auth_sound, require_auth-generate_token}
use pgpulse.Auth.RateLimit.{new_rate_limiter, allow, record_failure, retry_after, prune_expired}
use pgpulse.Auth.RateLimit.Window.{answers_correct}
use pgpulse.Auth.RateLimit.Answers.{
  Event, failure, attempt, refusal, recorded, allowed, wait, answers, AreAnswers, step,
}
use pgpulse.Auth.Tokens.{
  Claims, User, access, Jwt, JwtService, make_service, claims_of, JwtLaws, generate_access_token,
  require_auth, split_space, ok, require_permission,
}
use pgpulse.Common.{
  ◌≡◌, refl, List, ◌∷◌, none, some, ◌=?◌, arith, true, ℕ_discrete, if◌then◌else◌, ◌||◌, [], false,
  Bool, ◌++◌, ◌↔◌, Option, ap, here, ◌<◌, ◌==◌, there, ◌≤◌, ℕ, inl, inr, ◌/◌, ◌+◌, ◌*◌,
}
use pgpulse.Common.Text.{text, Text, text_beq, text_eq}

has_permission_table_example :
    (has_permission dba view_all ≡ valid_role dba)
    × (has_permission dba self_management ≡ valid_role dba)
    × (has_permission dba user_management ≡ (super_admin =? dba || roles_admin =? dba))
has_permission_table_example = has_permission_table dba

abbrev ip : Text
ip = 49 ∷ []

abbrev attack : List Event
attack =
    failure ip 1
    ∷ failure ip 3_000_000_000
    ∷ attempt ip 4_000_000_000
    ∷ refusal ip 4_000_000_000 7
    ∷ attempt ip 10_000_000_002
    ∷ []

attack-answers :
    answers (new_rate_limiter 2 10_000_000_000) attack
    ≡ recorded ∷ recorded ∷ allowed false ∷ wait (some 6) ∷ allowed true ∷ []
unfolding answers step new_rate_limiter record_failure allow retry_after prune_expired get_or lookup
    insert delete text_beq
attack-answers = refl

answers_correct_example :
    AreAnswers 2 10_000_000_000
      (λ j. [])
      attack
      (answers (new_rate_limiter 2 10_000_000_000) attack)
answers_correct_example = answers_correct 2 10_000_000_000 attack (omega arith)

abbrev root : User
root = record { id = 1; username = ip; password_hash = []; role = super_admin; active = true }

abbrev clerk : User
clerk = record { id = 2; username = []; password_hash = []; role = roles_admin; active = true }

abbrev service : JwtService
service = make_service (7 ∷ []) [] 3_600_000_000_000 7_200_000_000_000

Claims-discrete : Discrete Claims
Claims-discrete = hlevel ℕ_discrete

abbrev second : ℕ
second = 1_000_000_000

abbrev whole : ℕ → ℕ
whole t = t / second * second

abbrev none_signed : Jwt
none_signed = record {
  numeric_date = whole;
  sign = λ secret c. none;
  parse = λ now secret token. none;
}

abbrev issued : Claims
issued = claims_of none_signed service root access 10 3_600_000_000_000

abbrev sign_if : {c : Claims} → Dec (c ≡ issued) → Option Text
sign_if (yes e) = some (5 ∷ [])
sign_if (no ne) = none

-- A library that signs one set of claims.
abbrev one_token : Jwt
one_token = record {
  numeric_date = whole;
  sign = λ secret c. sign_if (Claims-discrete c issued);
  parse = λ now secret token. if token =? (5 ∷ []) then some issued else none;
}

signed_only :
    {c : Claims} (d : Dec (c ≡ issued)) (token : Text)
    → sign_if d ≡ some token
    → (issued ≡ c) × ((5 ∷ []) ≡ token)
signed_only (yes e) token h = (cc, cc)
signed_only (no ne) token h = cc

one_token-laws : JwtLaws one_token
unfolding text_beq
one_token-laws = record {
  numeric_date_early = λ t. omega arith;
  numeric_date_late = λ t. omega arith;
  numeric_date_twice = λ t. omega arith;
  parse-sign = λ now secret token c signed issue expiry early.
      let (same, spelled) = signed_only (Claims-discrete c issued) token signed in
      rw (← spelled) (ap some same);
}

signed_itself : (d : Dec (issued ≡ issued)) → sign_if d ≡ some (5 ∷ [])
signed_itself (yes e) = refl
signed_itself (no ne) = absurd (ne refl)

signed_with : generate_access_token one_token service 10 root ≡ some (5 ∷ [])
unfolding generate_access_token make_service
signed_with = signed_itself (Claims-discrete issued issued)

abbrev same_fold : Text → Text → Bool
same_fold a b = true

abbrev sent : Text
sent = text "Bearer" ++ (b' ' ∷ (5 ∷ []))

require_auth_sound_example :
    (scheme : Text) × (token : Text) × (sent ≡ scheme ++ (b' ' ∷ token))
    × (same_fold scheme (text "bearer") ≡ true)
    × (one_token.parse 10 service.secret token ≡ some issued)
    × (issued.token_type ≡ access)
unfolding require_auth text text_beq split_space claims_of
require_auth_sound_example = require_auth_sound one_token service same_fold 10 sent issued refl

require_auth-generate_token_example :
    (require_auth one_token service same_fold 20 sent ≡ ok issued)
    × (whole 3_600_000_000_010 ≤ 3_600_000_000_010)
    × (3_600_000_000_010 < whole 3_600_000_000_010 + second)
    × ((require_permission user_management (some issued) ≡ ok issued)
        ↔ (has_permission root.role user_management ≡ true))
unfolding make_service text_beq claims_of
require_auth-generate_token_example =
    require_auth-generate_token one_token service same_fold one_token-laws root 10 20 (5 ∷ [])
      user_management signed_with (omega arith) refl

abbrev no_failure : Call → Bool
no_failure call = false

abbrev staff : Table
staff = root ∷ clerk ∷ []

abbrev clerk_claims : Claims
clerk_claims = claims_of none_signed service clerk access 10 3_600_000_000_000

no_escalation_example :
    ¬ Holds 2 super_admin
      (handle_register no_failure (λ p. p) 3 (some clerk_claims) ip ip super_admin (clerk ∷ [])).1
    × ¬ Holds 2 super_admin
        (handle_update_user no_failure (some clerk_claims) 2 (some super_admin) none (clerk ∷ [])).1
    × ¬ Holds 2 super_admin
        (handle_delete_user no_failure (some clerk_claims) 2 staff staff (clerk ∷ [])).1
unfolding text text_beq claims_of
no_escalation_example =
    no_escalation no_failure (λ p. p) 3 clerk_claims (ground arith) ip ip super_admin 2
      (some super_admin) none staff staff (clerk ∷ []) 2 super_admin refl
      (λ h. elim h [ here p ↦ ground (arith, p.1) | there g ↦ elim g [ ] ])

abbrev second_root : User
second_root = record root { id = 3 }

abbrev two_roots : Table
two_roots = root ∷ clerk ∷ second_root ∷ []

distinct_roots : DistinctIds two_roots
distinct_roots = (
  ((λ e. ground (arith, e)), ((λ e. ground (arith, e)), tt)),
  (((λ e. ground (arith, e)), tt), (tt, tt)),
)

delete-keeps_admins_example :
    0 < admins (handle_delete_user no_failure (some clerk_claims) 1 two_roots two_roots two_roots).1
unfolding count_active_by_role text text_beq
delete-keeps_admins_example =
    delete-keeps_admins no_failure (some clerk_claims) 1 two_roots two_roots two_roots
      distinct_roots refl (omega arith) (omega arith)

abbrev root_claims : ℕ → Claims
root_claims id = claims_of none_signed service (record root { id = id }) access 10 3_600_000_000_000

deletes-lose_admins_example :
    let left =
      (handle_delete_user
        (λ call. false)
        (some (root_claims 3))
        1
        two_roots
        two_roots
        two_roots).1 in
    admins (handle_delete_user (λ call. false) (some (root_claims 1)) 3 two_roots two_roots left).1
    ≡ 0
unfolding count_active_by_role claims_of get_by_id text text_beq
deletes-lose_admins_example =
    deletes-lose_admins (root_claims 3) (root_claims 1) 1 3 two_roots (λ e. ground (arith, e))
      (λ e. ground (arith, e)) refl refl (omega arith)
      ((λ h. inl refl), ((λ h. absurd (ground (arith, h.0))), ((λ h. inr refl), tt)))

update-loses_admins_example :
    admins (handle_update_user no_failure (some clerk_claims) 1 none (some false) staff).1 ≡ 0
unfolding claims_of text text_beq
update-loses_admins_example =
    update-loses_admins no_failure clerk_claims 1 staff refl (λ e. ground (arith, e))
      ((λ h. refl), ((λ h. absurd (ground (arith, h.0))), tt))

handle_admin_reset_password_lem_example :
    (has_permission roles_admin user_management ≡ true)
    × (get_by_id 1
          (handle_admin_reset_password no_failure
            (λ p. p)
            1
            (1 ∷ 2 ∷ 3 ∷ 4 ∷ 5 ∷ 6 ∷ 7 ∷ 8 ∷ [])
            staff).1
        ≡ (if 1 == 1
            then some (record root { password_hash = 1 ∷ 2 ∷ 3 ∷ 4 ∷ 5 ∷ 6 ∷ 7 ∷ 8 ∷ [] })
            else get_by_id 1 staff))
unfolding get_by_id
handle_admin_reset_password_lem_example =
    handle_admin_reset_password_lem no_failure (λ p. p) 1 1 (1 ∷ 2 ∷ 3 ∷ 4 ∷ 5 ∷ 6 ∷ 7 ∷ 8 ∷ [])
      staff refl refl refl (omega arith) refl

abbrev all_wrong : Text → Text → Bool
all_wrong password password_hash = false

abbrev tries : List Request
tries =
    record { ip = ip; username = ip; password = ip; now = 5; later = 6 }
    ∷ record { ip = ip; username = []; password = ip; now = 7; later = 7 }
    ∷ record { ip = ip; username = ip; password = ip; now = 8; later = 9 }
    ∷ []

guesses_bounded_example :
    guesses no_failure all_wrong one_token service staff ip tries (new_rate_limiter 1 100) ≤ 1
unfolding new_rate_limiter
guesses_bounded_example =
    guesses_bounded no_failure all_wrong one_token service staff 5 ip tries (new_rate_limiter 1 100)
      ((omega arith, omega arith), ((omega arith, omega arith), ((omega arith, omega arith), tt)))

abbrev one_secret : JwtService
one_secret = make_service (7 ∷ []) [] 3_600_000_000_000 7_200_000_000_000

handle_refresh-generate_access_token_example :
    handle_refresh no_failure one_token one_secret 10 (5 ∷ []) staff ≡ ok (5 ∷ [])
unfolding get_by_id
handle_refresh-generate_access_token_example =
    handle_refresh-generate_access_token one_token one_token-laws no_failure (7 ∷ [])
      3_600_000_000_000 7_200_000_000_000 10 10 root (5 ∷ []) (5 ∷ []) staff signed_with
      (omega arith) refl refl refl signed_with
