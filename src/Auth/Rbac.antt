-- ===== src/Auth/Rbac.antt =====
-- internal/auth/rbac.go: the permissions of the four roles. Roles and permissions are strings in the
-- source, and a role may be any string.
use pgpulse.Common.{◌≡◌, refl, Bool, true, false, none, some, List, [], ◌∷◌, arith, any, ◌=?◌, ◌||◌}
use pgpulse.Common.Text.{Text, text, text_beq, text_eq}
use pgpulse.Common.Map.{Map, lookup}

abbrev pub user_management : Text
user_management = text "user_management"

abbrev pub instance_management : Text
instance_management = text "instance_management"

abbrev pub alert_management : Text
alert_management = text "alert_management"

abbrev pub view_all : Text
view_all = text "view_all"

abbrev pub self_management : Text
self_management = text "self_management"

abbrev pub super_admin : Text
super_admin = text "super_admin"

abbrev pub roles_admin : Text
roles_admin = text "roles_admin"

abbrev pub dba : Text
dba = text "dba"

abbrev pub app_admin : Text
app_admin = text "app_admin"

unfoldable pub valid_roles : List Text
valid_roles = super_admin ∷ roles_admin ∷ dba ∷ app_admin ∷ []

unfoldable pub role_permissions : Map Text (List Text)
role_permissions =
    (
      super_admin,
      user_management ∷ instance_management ∷ alert_management ∷ view_all ∷ self_management ∷ [],
    )
    ∷ (roles_admin, user_management ∷ view_all ∷ self_management ∷ [])
    ∷ (dba, instance_management ∷ alert_management ∷ view_all ∷ self_management ∷ [])
    ∷ (app_admin, alert_management ∷ view_all ∷ self_management ∷ [])
    ∷ []

unfoldable pub has_permission : Text → Text → Bool
unfolding role_permissions lookup
has_permission role perm = elim (lookup role role_permissions) [
  | none ↦ false
  | some perms ↦ any (λ p. p =? perm) perms
]

-- A nil slice and an empty one are both the empty list.
unfoldable pub permissions_for_role : Text → List Text
unfolding role_permissions lookup
permissions_for_role role = elim (lookup role role_permissions) [ none ↦ [] | some perms ↦ perms ]

unfoldable pub valid_role : Text → Bool
unfolding valid_roles
valid_role role = any (λ r. r =? role) valid_roles

-- The list of permissions that a role is given in tokens and answers holds exactly the permissions
-- for which the check of `HasPermission` passes, for every string as a role.
pub has_permission-eq-any :
    (role perm : Text) → has_permission role perm ≡ any (λ p. p =? perm) (permissions_for_role role)
unfolding has_permission permissions_for_role
has_permission-eq-any role perm = ground arith

-- How the names of permissions that the proof below meets compare.
compared :
    (text_beq super_admin super_admin ≡ true)
    × (text_beq user_management user_management ≡ true)
    × (text_beq view_all view_all ≡ true)
    × (text_beq self_management self_management ≡ true)
    × (text_beq instance_management user_management ≡ false)
    × (text_beq alert_management user_management ≡ false)
    × (text_beq view_all user_management ≡ false)
    × (text_beq self_management user_management ≡ false)
unfolding text text_beq
compared = (refl, refl, refl, refl, refl, refl, refl, refl)

-- Exactly the valid roles have `view_all` and `self_management`, and exactly `super_admin` and
-- `roles_admin` have `user_management`.
pub has_permission_table :
    (role : Text)
    → (has_permission role view_all ≡ valid_role role)
      × (has_permission role self_management ≡ valid_role role)
      × (has_permission role user_management ≡ (super_admin =? role || roles_admin =? role))
unfolding has_permission valid_role
has_permission_table role =
    (ground (arith, compared), ground (arith, compared), ground (arith, compared))

-- A string that has some permission is a valid role, and `super_admin` has that permission too.
pub has_permission_sound :
    (role perm : Text)
    → has_permission role perm ≡ true
    → (valid_role role ≡ true) × (has_permission super_admin perm ≡ true)
unfolding has_permission valid_role
has_permission_sound role perm h = (ground (arith, compared), ground (arith, compared))
