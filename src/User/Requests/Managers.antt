-- ===== src/User/Requests/Managers.antt =====
-- Who can manage the accounts, as the rights of an account and as `users_holding` counts it.
use natimai_tiai.Prelude.{
  ℕ, ◌≡◌, ◌⊎◌, refl, sym, ◌∙◌, ap, ap₂, Bool, true, false, not, ◌&&◌, ◌||◌, inl, inr, String, List,
  [], ◌∷◌, any, contains, count_where, string_eq, nat_eq, ◌==◌, ==_sound, ==_swap, arith,
  Bool-cases, and_true, any-implied, any-same,
}
use natimai_tiai.User.Scope.{Places}
use natimai_tiai.User.Permissions.{has_permission, permission_key}
use natimai_tiai.User.Accounts.{User}
use natimai_tiai.User.Groups.{
  Ids, Roster, Group, GroupPermission, all_permissions, admin_in, is_admin, is_admin_group, granted,
  holds, users_holding, user_authority, user_permissions,
}
use natimai_tiai.User.Edits.{user_write}
use natimai_tiai.User.Requests.Aspects.{may, has, has-user, contains-granted}

-- An active account holds the permission to write accounts.
abbrev pub manages : Roster → User → Bool
manages db u = u.is_active && has_permission (user_permissions db u.id) "user" "write"

abbrev pub managed : Roster → Bool
managed db = any (manages db) db.accounts.users

contains-all_permissions : contains all_permissions user_write ≡ true
unfolding all_permissions permission_key
contains-all_permissions = refl

-- What an administrator holds is in the catalogue.
pub manages-may :
    (ids : Ids) (p : Places) (db : Roster) (u : User)
    → manages db u ≡ (u.is_active && has p (may user_write) (user_authority ids db u.id))
unfolding user_authority user_permissions has_permission
manages-may ids p db u = by (is_admin db u.id) refl
  where
    by :
        (b : Bool)
        → is_admin db u.id ≡ b
        → manages db u ≡ (u.is_active && has p (may user_write) (user_authority ids db u.id))
    by true e = rw e (rw contains-all_permissions refl)
    by false e = rw e refl

-- The joins of `users_holding` find the same.
group_found :
    (db : Roster) (q : String) (i : ℕ) (groups : List Group)
    → any
        (λ (g : Group).
          g.id == i
          && (any
                (λ (r : GroupPermission). r.group_id == g.id && r.permission == q)
                db.group_permissions
              || is_admin_group g))
        groups
      ≡ true
    → (admin_in groups i
        || any (λ (r : GroupPermission). r.group_id == i && q == r.permission) db.group_permissions)
      ≡ true
unfolding admin_in
group_found db q i [] h = cc
group_found db q i (g ∷ groups) h = ground (
  arith,
  h,
  group_found db q i groups,
  any-same _ _ db.group_permissions (λ r. turned r),
  here (Bool-cases (g.id == i)),
)
  where
    granted_to : ℕ → Bool
    granted_to j =
        any (λ (r : GroupPermission). r.group_id == j && q == r.permission) db.group_permissions

    turned :
        (r : GroupPermission)
        → (r.group_id == g.id && r.permission == q) ≡ (r.group_id == g.id && q == r.permission)
    turned r = ap (λ b. r.group_id == g.id && b) (==_swap r.permission q)

    here :
        ((g.id == i) ≡ true) ⊎ ((g.id == i) ≡ false)
        → (not (g.id == i) || (not (granted_to g.id) || granted_to i)) ≡ true
    here (inl same) = rw (ap granted_to (==_sound g.id i same)) (ground arith)
    here (inr other) = rw other refl

pub granted-may :
    (db : Roster) (q : String) (i : ℕ)
    → (admin_in db.groups i
        || any (λ (r : GroupPermission). r.group_id == i && q == r.permission) db.group_permissions)
      ≡ (admin_in db.groups i || contains (granted db i) q)
unfolding granted
granted-may db q i = by (admin_in db.groups i) refl
  where
    by :
        (b : Bool)
        → admin_in db.groups i ≡ b
        → (admin_in db.groups i
            || any
                (λ (r : GroupPermission). r.group_id == i && q == r.permission)
                db.group_permissions)
          ≡ (admin_in db.groups i || contains (granted db i) q)
    by true e = rw e refl
    by false e =
        rw e
          (sym (contains-granted db.group_permissions (λ (r : GroupPermission). r.group_id == i) q))

module _ (ids : Ids) (p : Places) where
  holds-manages : (db : Roster) (u : User) → holds db user_write u ≡ true → manages db u ≡ true
  unfolding holds
  holds-manages db u h =
      let (active, found) = and_true u.is_active _ h in
      manages-may ids p db u
      ∙ ap₂ ◌&&◌ active (
          has-user ids p db (may user_write) u.id
          ∙ any-implied _ _
              (λ m e.
                let (his, in_group) = and_true (m.user_id == u.id) _ e in
                ap₂ ◌&&◌ his (
                  sym (granted-may db user_write m.group_id)
                  ∙ group_found db user_write m.group_id db.groups in_group))
              db.user_groups found)

  pub counted-managed :
      (db : Roster) → (users_holding db user_write == 0) ≡ false → managed db ≡ true
  unfolding users_holding
  counted-managed db h = counted db.accounts.users h
    where
      counted :
          (users : List User)
          → (count_where (holds db user_write) users == 0) ≡ false
          → any (manages db) users ≡ true
      counted [] h = cc
      counted (u ∷ users) h = elim (Bool-cases (holds db user_write u)) [
        | inl yes_ ↦ rw (holds-manages db u yes_) refl
        | inr no_ ↦ ground (arith, counted users (ground (arith, h, no_)))
      ]
