-- ===== src/Auth/Users/Escalation.antt =====
-- What the user endpoints keep: who can gain a privileged role, and what is left of the
-- administrators.
use pgpulse.Common.{
  ℕ, ◌≡◌, ◌≢◌, ◌⊎◌, inl, inr, Bool, true, false, ◌||◌, Option, none, some, [], ◌∷◌, ◌++◌, ◌==◌,
  arith, ◌=?◌, Any, here, there, Bool-cases,
}
use pgpulse.Common.Text.{Text, text_eq, text_beq_iff}
use pgpulse.Auth.Rbac.{super_admin, roles_admin}
use pgpulse.Auth.Tokens.{User, Claims}
use pgpulse.Auth.Users.{
  Call, Table, set_user, save_role, save_active, update_user, delete_user, forbidden_role,
  handle_register, handle_update_user, handle_delete_user, keep, update, update_active,
}

abbrev pub is_privileged : Text → Bool
is_privileged role = role =? super_admin || role =? roles_admin

-- How many users hold a privileged role, by id.
abbrev pub Holds : ℕ → Text → Table → Type 0
Holds id role = Any (λ u. (u.id ≡ id) × (u.role ≡ role))

set_user-Holds :
    (n : ℕ) (new_role : Option Text) (active : Option Bool) (id : ℕ) (role : Text) (users : Table)
    → Holds id role (set_user n new_role active users)
    → Holds id role users ⊎ (new_role ≡ some role)
unfolding set_user
set_user-Holds n new_role active id role [] h = elim h [ ]
set_user-Holds n none active id role (u ∷ us) (here p) = inl (here (ground arith))
set_user-Holds n (some r) active id role (u ∷ us) (here p) = elim (Bool-cases (u.id == n)) [
  | inl e ↦ inr (ground (arith, rw e at p))
  | inr e ↦ inl (here (rw e at p))
]
set_user-Holds n new_role active id role (u ∷ us) (there h) =
    elim (set_user-Holds n new_role active id role us h) [
      | inl old ↦ inl (there old)
      | inr new ↦ inr new
    ]

append-Holds :
    (id : ℕ) (role : Text) (u : User) (users : Table)
    → Holds id role (users ++ (u ∷ []))
    → Holds id role users ⊎ (u.role ≡ role)
append-Holds id role u [] (here p) = inr p.1
append-Holds id role u [] (there h) = elim h [ ]
append-Holds id role u (x ∷ us) (here p) = inl (here p)
append-Holds id role u (x ∷ us) (there h) = elim (append-Holds id role u us h) [
  | inl old ↦ inl (there old)
  | inr new ↦ inr new
]

keep-Holds :
    (p : User → Bool) (id : ℕ) (role : Text) (users : Table)
    → Holds id role (keep p users)
    → Holds id role users
keep-Holds p id role [] h = elim h [ ]
keep-Holds p id role (u ∷ us) h = elim (Bool-cases (p u)) [
  | inl e ↦ under (keep-Holds p id role us) (rw e at h)
  | inr e ↦ there (keep-Holds p id role us (rw e at h))
]
  where
    under :
        (Holds id role (keep p us) → Holds id role us)
        → Holds id role (u ∷ keep p us)
        → Holds id role (u ∷ us)
    under deeper (here q) = here q
    under deeper (there g) = there (deeper g)

module _ (fails : Call → Bool) where
  save_role-Holds :
      (n : ℕ) (new_role : Option Text) (id : ℕ) (role : Text) (users : Table)
      → Holds id role (save_role fails n new_role users).1
      → Holds id role users ⊎ (new_role ≡ some role)
  unfolding save_role
  save_role-Holds n none id role users h = inl h
  save_role-Holds n (some r) id role users h = elim (Bool-cases (fails update)) [
    | inl e ↦ inl (rw e at h)
    | inr e ↦ set_user-Holds n (some r) none id role users (rw e at h)
  ]

  save_active-Holds :
      (n : ℕ) (active : Option Bool) (id : ℕ) (role : Text) (users : Table)
      → Holds id role (save_active fails n active users).1
      → Holds id role users
  unfolding save_active
  save_active-Holds n none id role users h = h
  save_active-Holds n (some a) id role users h = elim (Bool-cases (fails update_active)) [
    | inl e ↦ rw e at h
    | inr e ↦ elim (set_user-Holds n none (some a) id role users (rw e at h)) [
      | inl old ↦ old
      | inr new ↦ absurd cc
    ]
  ]

  update_user-Holds :
      (n : ℕ) (new_role : Option Text) (active : Option Bool) (id : ℕ) (role : Text) (users : Table)
      → Holds id role (update_user fails n new_role active users).1
      → Holds id role users ⊎ (new_role ≡ some role)
  unfolding update_user
  update_user-Holds n new_role active id role users h =
      let saved = save_role fails n new_role users in
      save_role-Holds n new_role id role users (elim (Bool-cases saved.0) [
        | inl e ↦ save_active-Holds n active id role saved.1 (rw e at h)
        | inr e ↦ rw e at h
      ])

-- A role that a request sets is not forbidden.
abbrev Permitted : Option Claims → Option Text → Type 0
Permitted c none = Unit {0}
Permitted c (some r) = forbidden_role c r ≡ false

module _ (fails : Call → Bool) (c : Option Claims) where
  -- The tables that the three handlers can leave behind.
  handle_register_table :
      (bcrypt : Text → Text) (new_id : ℕ) (name password role : Text) (users : Table)
      → let u : User = record {
        id = new_id;
        username = name;
        password_hash = bcrypt password;
        role = role;
        active = true;
      } in
        let left = (handle_register fails bcrypt new_id c name password role users).1 in
        (left ≡ users) ⊎ ((left ≡ users ++ (u ∷ [])) × (forbidden_role c role ≡ false))
  unfolding handle_register
  handle_register_table bcrypt new_id name password role users = ground arith

  handle_update_user_table :
      (id : ℕ) (role : Option Text) (active : Option Bool) (users : Table)
      → let left = (handle_update_user fails c id role active users).1 in
        (left ≡ users) ⊎ ((left ≡ (update_user fails id role active users).1) × Permitted c role)
  unfolding handle_update_user
  handle_update_user_table id none active users = ground arith
  handle_update_user_table id (some r) active users = ground arith

  handle_delete_user_table :
      (id : ℕ) (at_get at_count users : Table)
      → let left = (handle_delete_user fails c id at_get at_count users).1 in
        (left ≡ users) ⊎ (left ≡ delete_user id users)
  unfolding handle_delete_user
  handle_delete_user_table id at_get at_count users = ground arith

-- A request of anybody who is signed in but is no super_admin, to register, change or delete a user,
-- gives no user a privileged role that the user did not hold before, whichever of its calls fail and
-- whatever a deletion found when it read the table.
pub no_escalation :
    (fails : Call → Bool) (bcrypt : Text → Text) (new_id : ℕ) (c : Claims)
    → c.role ≢ super_admin
    → (name password new_role : Text) (id : ℕ) (role : Option Text) (active : Option Bool)
    → (at_get at_count users : Table) (n : ℕ) (held : Text) → is_privileged held ≡ true
    → ¬ Holds n held users
    → ¬ Holds n held (handle_register fails bcrypt new_id (some c) name password new_role users).1
      × ¬ Holds n held (handle_update_user fails (some c) id role active users).1
      × ¬ Holds n held (handle_delete_user fails (some c) id at_get at_count users).1
unfolding forbidden_role delete_user
no_escalation fails bcrypt new_id c other name password new_role id role active at_get at_count
      users n held priv not_held =
    (
      λ h. elim (handle_register_table fails (some c) bcrypt new_id name password new_role users) [
        | inl same ↦ not_held (rw same at h)
        | inr (grown, free) ↦ elim (append-Holds n held _ users (rw grown at h)) [
          | inl old ↦ not_held old
          | inr new ↦ ground (arith, text_beq_iff c.role super_admin)
        ]
      ],
      λ h. elim (handle_update_user_table fails (some c) id role active users) [
        | inl same ↦ not_held (rw same at h)
        | inr (changed, free) ↦
            elim (update_user-Holds fails id role active n held users (rw changed at h)) [
              | inl old ↦ not_held old
              | inr new ↦ not_permitted role new free
            ]
      ],
      λ h. elim (handle_delete_user_table fails (some c) id at_get at_count users) [
        | inl same ↦ not_held (rw same at h)
        | inr left ↦ not_held (keep-Holds _ n held users (rw left at h))
      ],
    )
  where
    not_permitted : (r : Option Text) → r ≡ some held → Permitted (some c) r → ⊥
    not_permitted none e free = cc
    not_permitted (some r) e free = ground (arith, text_beq_iff c.role super_admin)
