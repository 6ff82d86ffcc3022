-- ===== src/Auth/Users.antt =====
-- The user table of internal/auth/store.go and the endpoints of internal/api/auth.go that read or
-- change it. A handler takes the table and returns it with its answer. Which of a request's calls of
-- the database or of bcrypt fail is an argument, and so are bcrypt and the id of a new row. Deleting
-- takes the table as each of its three statements finds it, since other requests can come between;
-- the other handlers change the table by what they are asked alone, and take it once.
use pgpulse.Common.{
  ℕ, ◌+◌, Bool, true, false, not, ◌&&◌, ◌||◌, Option, none, some, List, [], ◌∷◌, ◌++◌, ltb, leb,
  ◌==◌, if◌then◌else◌, ◌=?◌, length, keep, any,
}
use pgpulse.Common.Text.{Text, text, text_eq}
use pgpulse.Auth.Rbac.{super_admin, roles_admin, valid_role}
use pgpulse.Auth.Tokens.{
  User, Claims, Response, ok, error, Jwt, JwtService, generate_token_pair, generate_access_token,
  validate_refresh_token, TokenPair,
}
pub mod Escalation
pub mod Administrators
pub mod Refreshing

pub data Call : Type 0 where
  get : Call
  create : Call
  count : Call
  update : Call
  update_active : Call
  delete : Call
  hash : Call

abbrev pub Table : Type 0
Table = List User

unfoldable pub get_by_id : ℕ → Table → Option User
get_by_id id [] = none
get_by_id id (u ∷ us) = if u.id == id then some u else get_by_id id us

unfoldable pub get_by_username : Text → Table → Option User
get_by_username name [] = none
get_by_username name (u ∷ us) = if u.username =? name then some u else get_by_username name us

-- `INSERT INTO users`: the name is unique, and a new user is active.
unfoldable pub create_user : ℕ → Text → Text → Text → Table → Option (User × Table)
create_user id name password_hash role users =
    if any (λ u. u.username =? name) users
    then none
    else let u : User = record {
      id = id;
      username = name;
      password_hash = password_hash;
      role = role;
      active = true;
    } in
      some (u, users ++ (u ∷ []))

abbrev pub or_else {ℓ} : {A : Type ℓ} → Option A → A → A
or_else none a = a
or_else (some b) a = b

-- An `UPDATE users` statement that sets the given columns.
unfoldable pub set_user : ℕ → Option Text → Option Bool → Table → Table
set_user id role active [] = []
set_user id role active (u ∷ us) =
    (if u.id == id
      then record u { role = or_else role u.role; active = or_else active u.active }
      else u)
    ∷ set_user id role active us

-- The two statements of `Update`, each with whether it did not fail.
unfoldable pub save_role : (Call → Bool) → ℕ → Option Text → Table → Bool × Table
unfolding set_user
save_role fails id none users = (true, users)
save_role fails id (some role) users =
    if fails update then (false, users) else (true, set_user id (some role) none users)

unfoldable pub save_active : (Call → Bool) → ℕ → Option Bool → Table → Bool × Table
unfolding set_user
save_active fails id none users = (true, users)
save_active fails id (some active) users =
    if fails update_active then (false, users) else (true, set_user id none (some active) users)

-- Where the second statement fails, what the first did stays.
unfoldable pub update_user : (Call → Bool) → ℕ → Option Text → Option Bool → Table → Bool × Table
unfolding save_role save_active
update_user fails id role active users =
    let (saved, users') = save_role fails id role users in
    if saved then save_active fails id active users' else (false, users')

unfoldable pub update_password : ℕ → Text → Table → Table
update_password id password_hash [] = []
update_password id password_hash (u ∷ us) =
    (if u.id == id then record u { password_hash = password_hash } else u)
    ∷ update_password id password_hash us

unfoldable pub count_active_by_role : Text → Table → ℕ
count_active_by_role role users = length (keep (λ u. u.role =? role && u.active) users)

unfoldable pub delete_user : ℕ → Table → Table
delete_user id users = keep (λ u. not (u.id == id)) users

abbrev pub Done : Type 0
Done = Response (Unit {0}) × Table

bad_request : Text → Table → Done
bad_request message users = (error 400 message, users)

internal_error : Text → Table → Done
internal_error message users = (error 500 message, users)

-- Somebody other than a super_admin may not grant the two privileged roles. Without claims, which
-- only happens with authentication off, everything is granted.
forbidden_role : Option Claims → Text → Bool
forbidden_role none role = false
forbidden_role (some c) role =
    not (c.role =? super_admin) && (role =? super_admin || role =? roles_admin)

is_self : Option Claims → ℕ → Bool
is_self none id = false
is_self (some c) id = c.user_id == id

-- The test of `handleUpdateUser` on a role that the request sets.
role_refused : Option Claims → Option Text → Option (ℕ × Text)
unfolding forbidden_role
role_refused claims none = none
role_refused claims (some role) =
    if not (valid_role role)
    then some (400, text "invalid role")
    else if forbidden_role claims role
    then some (403, text "only super_admin can assign privileged roles")
    else none

-- `*req.Active` is false.
deactivates : Option Bool → Bool
deactivates none = false
deactivates (some active) = not active

module _ (fails : Call → Bool) where
  unfoldable pub handle_register :
      (Text → Text) → ℕ → Option Claims → Text → Text → Text → Table → Done
  unfolding bad_request internal_error forbidden_role create_user
  handle_register bcrypt new_id claims name password role users =
      if name =? [] || password =? [] || role =? []
      then bad_request (text "username, password, and role are required") users
      else if not (valid_role role)
      then bad_request (text "invalid role") users
      else if forbidden_role claims role
      then (error 403 (text "only super_admin can create privileged users"), users)
      else if fails hash
      then internal_error (text "failed to hash password") users
      else if fails create
      then (error 409 (text "username already exists"), users)
      else elim (create_user new_id name (bcrypt password) role users) [
        | none ↦ (error 409 (text "username already exists"), users)
        | some (u, users') ↦ (ok tt, users')
      ]

  unfoldable pub handle_update_user : Option Claims → ℕ → Option Text → Option Bool → Table → Done
  unfolding bad_request internal_error is_self role_refused deactivates update_user
  handle_update_user claims id role active users =
      if is_self claims id && deactivates active
      then bad_request (text "cannot deactivate your own account") users
      else elim (role_refused claims role) [
        | some (code, message) ↦ (error code message, users)
        | none ↦
            let (saved, users') = update_user fails id role active users in
            if saved then (ok tt, users') else internal_error (text "failed to update user") users'
      ]

  -- `at_get` and `at_count` are the table as the statements that read it find it, `users` as the one
  -- that deletes does.
  unfoldable pub handle_delete_user : Option Claims → ℕ → Table → Table → Table → Done
  unfolding bad_request internal_error is_self get_by_id count_active_by_role delete_user
  handle_delete_user claims id at_get at_count users =
      if is_self claims id
      then bad_request (text "cannot delete your own account") users
      else if fails get
      then internal_error (text "failed to fetch user") users
      else elim (get_by_id id at_get) [
        | none ↦ (error 404 (text "user not found"), users)
        | some u ↦
            if u.role =? super_admin && fails count
            then internal_error (text "failed to check super admin count") users
            else if u.role =? super_admin && leb (count_active_by_role super_admin at_count) 1
            then bad_request (text "cannot delete the last active super admin") users
            else if fails delete || not (any (λ v. v.id == id) users)
            then internal_error (text "failed to delete user") users
            else (ok tt, delete_user id users)
      ]

  unfoldable pub handle_admin_reset_password : (Text → Text) → ℕ → Text → Table → Done
  unfolding bad_request internal_error get_by_id update_password
  handle_admin_reset_password bcrypt id new_password users =
      if ltb (length new_password) 8
      then bad_request (text "password must be at least 8 characters") users
      else if fails get
      then internal_error (text "failed to fetch user") users
      else elim (get_by_id id users) [
        | none ↦ (error 404 (text "user not found"), users)
        | some u ↦
            if fails hash
            then internal_error (text "failed to hash password") users
            else if fails update
            then internal_error (text "failed to reset password") users
            else (ok tt, update_password id (bcrypt new_password) users)
      ]

  -- `check` is bcrypt's comparison of a password with a hash.
  unfoldable pub handle_change_password :
      (Text → Text) → (Text → Text → Bool) → Option Claims → Text → Text → Table → Done
  unfolding bad_request internal_error get_by_id update_password
  handle_change_password bcrypt check claims current new_password users =
      if current =? [] || new_password =? []
      then bad_request (text "current_password and new_password are required") users
      else elim claims [
        | none ↦ (error 401 (text "authentication required"), users)
        | some c ↦
            if fails get
            then internal_error (text "failed to fetch user") users
            else elim (get_by_id c.user_id users) [
              | none ↦ internal_error (text "failed to fetch user") users
              | some u ↦
                  if not (check current u.password_hash)
                  then (error 401 (text "current password is incorrect"), users)
                  else if fails hash
                  then internal_error (text "failed to hash password") users
                  else if fails update
                  then internal_error (text "failed to update password") users
                  else (ok tt, update_password c.user_id (bcrypt new_password) users)
            ]
      ]

  -- The refresh endpoint: a refresh token buys an access token for the user as the table has it now.
  unfoldable pub handle_refresh : Jwt → JwtService → ℕ → Text → Table → Response Text
  unfolding validate_refresh_token generate_access_token get_by_id
  handle_refresh jwt s now token users = elim (validate_refresh_token jwt s now token) [
    | none ↦ error 401 (text "invalid refresh token")
    | some c ↦
        if fails get then error 401 (text "user not found") else elim (get_by_id c.user_id users) [
          | none ↦ error 401 (text "user not found")
          | some u ↦
              if not u.active
              then error 401 (text "account deactivated")
              else elim (generate_access_token jwt s now u) [
                | none ↦ error 500 (text "failed to generate token")
                | some access ↦ ok access
              ]
        ]
  ]
