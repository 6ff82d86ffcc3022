-- ===== src/Auth/Users/Administrators.antt =====
-- What the user endpoints leave of the active super administrators, and whose password a reset
-- changes.
use mathlib.Core.Option
use mathlib.Core.Path.{subst}
use pgpulse.Common.{
  ℕ, ◌+◌, ◌≤◌, ◌<◌, ◌≡◌, refl, ◌≢◌, inl, inr, Bool, true, false, Option, none, some, [], ◌∷◌, ◌==◌,
  arith, if◌then◌else◌, ◌=?◌, All, Bool-cases, Option-cases, length, ==_iff, ◌⊎◌, any,
}
use pgpulse.Common.Text.{Text, text, text_eq, text_beq, text_beq_iff}
use pgpulse.Auth.Rbac.{super_admin, user_management, has_permission, roles_admin}
use pgpulse.Auth.Tokens.{User, Claims}
use pgpulse.Auth.Users.{
  Call, update, get, hash, Table, get_by_id, update_active, set_user, save_role, save_active,
  update_user, delete_user, count_active_by_role, handle_update_user, handle_delete_user,
  handle_admin_reset_password, update_password, any,
}

-- No two rows have one id: the primary key of the table.
abbrev pub DistinctIds : Table → Type 0
DistinctIds [] = Unit
DistinctIds (u ∷ us) = All (λ v. v.id ≢ u.id) us × DistinctIds us

abbrev pub admins : Table → ℕ
admins = count_active_by_role super_admin

admins-absent :
    (id : ℕ) (users : Table)
    → All (λ v. v.id ≢ id) users
    → admins (delete_user id users) ≡ admins users
unfolding count_active_by_role delete_user
admins-absent id [] h = refl
admins-absent id (u ∷ us) (h, hs) = ground (arith, admins-absent id us hs)

-- Deleting a row costs at most that row.
admins-delete_user :
    (id : ℕ) (users : Table) {u : User}
    → DistinctIds users
    → get_by_id id users ≡ some u
    → admins users ≤ admins (delete_user id users) + (if u.role =? super_admin then 1 else 0)
unfolding count_active_by_role delete_user get_by_id
admins-delete_user id [] d h = cc
admins-delete_user id (x ∷ us) {u} (n, d) h = elim (Bool-cases (x.id == id)) [
  | inl e ↦
      let same = (==_iff x.id id).0 e in
      let absent : All (λ v. v.id ≢ id) us = subst (λ k. All (λ v. v.id ≢ k) us) same n in
      ground (arith, admins-absent id us absent)
  | inr e ↦
      let found : get_by_id id us ≡ some u = ground arith in
      ground (arith, admins-delete_user id us d found)
]

admins-deactivated :
    (id : ℕ) (users : Table)
    → All (λ u. (u.role ≡ super_admin) × (u.active ≡ true) → u.id ≡ id) users
    → admins (set_user id none (some false) users) ≡ 0
unfolding count_active_by_role set_user
admins-deactivated id [] h = refl
admins-deactivated id (u ∷ us) (h, hs) =
    ground (arith, admins-deactivated id us hs, text_beq_iff u.role super_admin)

abbrev rehash : Text → User → User
rehash password_hash u = record u { password_hash = password_hash }

get_by_id-update_password :
    (id j : ℕ) (password_hash : Text) (users : Table)
    → get_by_id j (update_password id password_hash users) ≡ (
        if j == id
        then Option.map (rehash password_hash) (get_by_id j users)
        else get_by_id j users)
unfolding get_by_id update_password
get_by_id-update_password id j password_hash [] = ground arith
get_by_id-update_password id j password_hash (u ∷ us) =
    ground (arith, get_by_id-update_password id j password_hash us)

-- A request to delete a user leaves an active super_admin if its statement that deletes finds one,
-- and finds the user as the request read it and no fewer active super_admins than it counted. The ids
-- of the table are distinct.
pub delete-keeps_admins :
    (fails : Call → Bool) (claims : Option Claims) (id : ℕ) (at_get at_count users : Table)
    → DistinctIds users
    → get_by_id id at_get ≡ get_by_id id users
    → admins at_count ≤ admins users
    → 0 < admins users
    → 0 < admins (handle_delete_user fails claims id at_get at_count users).1
unfolding handle_delete_user
delete-keeps_admins fails claims id at_get at_count users d same more pos =
    elim (Option-cases (get_by_id id users)) [
      | inl e ↦ ground (arith, e, same)
      | inr (u, e) ↦ ground (arith, e, same, more, admins-delete_user id users d e)
    ]

admins-deleted :
    (a b : ℕ) (users : Table)
    → All (λ u. (u.role ≡ super_admin) × (u.active ≡ true) → (u.id ≡ a) ⊎ (u.id ≡ b)) users
    → admins (delete_user b (delete_user a users)) ≡ 0
unfolding count_active_by_role delete_user
admins-deleted a b [] h = refl
admins-deleted a b (u ∷ us) (h, hs) =
    ground (arith, admins-deleted a b us hs, h, text_beq_iff u.role super_admin)

delete_user-absent :
    (id : ℕ) (users : Table) → any (λ v. v.id == id) users ≡ false → delete_user id users ≡ users
unfolding delete_user
delete_user-absent id [] h = refl
delete_user-absent id (u ∷ us) h = ground (arith, h, delete_user-absent id us (ground (arith, h)))

-- A deletion that read the user and counted two super_admins or more is done, whatever has happened
-- to the table since.
handle_delete_user-deletes :
    (c : Claims) (id : ℕ) (at_get at_count users : Table) {u : User}
    → c.user_id ≢ id
    → get_by_id id at_get ≡ some u
    → 2 ≤ admins at_count
    → (handle_delete_user (λ call. false) (some c) id at_get at_count users).1
      ≡ delete_user id users
unfolding handle_delete_user
handle_delete_user-deletes c id at_get at_count users other found two =
    elim (Bool-cases (any (λ v. v.id == id) users)) [
      | inl e ↦ ground (arith, found, e)
      | inr e ↦ ground (arith, found, e, delete_user-absent id users e)
    ]

-- Where two super_admins are the only active ones, two requests to delete them, sent by others who
-- are signed in, leave none if both have read and counted before either deletes and no call fails.
pub deletes-lose_admins :
    (c d : Claims) (a b : ℕ) (users : Table) {u v : User}
    → c.user_id ≢ a
    → d.user_id ≢ b
    → get_by_id a users ≡ some u
    → get_by_id b users ≡ some v
    → 2 ≤ admins users
    → All (λ w. (w.role ≡ super_admin) × (w.active ≡ true) → (w.id ≡ a) ⊎ (w.id ≡ b)) users
    → let users' = (handle_delete_user (λ call. false) (some c) a users users users).1 in
      admins (handle_delete_user (λ call. false) (some d) b users users users').1 ≡ 0
deletes-lose_admins c d a b users other another found found' two only =
    rw
      (
        handle_delete_user-deletes c a users users users other found two,
        handle_delete_user-deletes d b users users (delete_user a users) another found' two,
      )
      (admins-deleted a b users only)

-- Where no user but one is an active super_admin, a request to deactivate that user, of anybody
-- else who is signed in, leaves no active super_admin if the update does not fail.
pub update-loses_admins :
    (fails : Call → Bool) (c : Claims) (id : ℕ) (users : Table)
    → fails update_active ≡ false
    → c.user_id ≢ id
    → All (λ u. (u.role ≡ super_admin) × (u.active ≡ true) → u.id ≡ id) users
    → admins (handle_update_user fails (some c) id none (some false) users).1 ≡ 0
unfolding handle_update_user update_user save_role save_active
update-loses_admins fails c id users works other only =
    ground (arith, admins-deactivated id users only)

-- A roles_admin is permitted to reset passwords. A request to reset the password of a user in the
-- table, to one of at least eight characters and when no call fails, sets it whatever that user's
-- role, and changes no other user.
pub handle_admin_reset_password_lem :
    (fails : Call → Bool) (bcrypt : Text → Text) (id j : ℕ) (new_password : Text) (users : Table)
    {u : User}
    → fails get ≡ false
    → fails hash ≡ false
    → fails update ≡ false
    → 8 ≤ length new_password
    → get_by_id id users ≡ some u
    → (has_permission roles_admin user_management ≡ true)
      × (get_by_id j (handle_admin_reset_password fails bcrypt id new_password users).1 ≡ (
          if j == id
          then some (record u { password_hash = bcrypt new_password })
          else get_by_id j users))
unfolding handle_admin_reset_password has_permission text text_beq
handle_admin_reset_password_lem fails bcrypt id j new_password users g h w long found =
    (refl, ground (arith, get_by_id-update_password id j (bcrypt new_password) users))
