-- ===== src/User/Requests/Aspects.antt =====
-- What an authority gives, aspect by aspect, and an account's as what its groups give.
use natimai_tiai.Prelude.{
  ℕ, ◌≡◌, refl, sym, ◌∙◌, ap, Bool, true, false, ◌&&◌, ◌||◌, Option, none, some, String, List, [],
  ◌∷◌, map, any, select, contains, string_eq, nat_eq, ◌==◌, arith, Bool-cases, inl, inr,
  contains-append, contains-subset, is_null, is_not_null, any-or, any-and, any-same, any-implied,
  any-map, any-any, ==_swap,
}
use natimai_tiai.Machine.{Machine}
use natimai_tiai.User.Scope
use natimai_tiai.User.Scope.{Scope, Places, machine_visible}
use natimai_tiai.User.Scope.Visibility.{machine_visible-union, wider-visible}
use natimai_tiai.User.Permissions.{Authority, escalation}
use natimai_tiai.User.Permissions.Reach.{within_reach, escalation-eq-within_reach}
use natimai_tiai.User.Groups.{
  Ids, Roster, UserGroup, GroupPermission, admin_in, is_admin, is_member, granted, granted_by,
  scope_of, user_group_ids, user_permissions, user_scope, user_authority, groups_authority,
}
use natimai_tiai.User.Edits.{beyond}

-- To be an administrator, to hold a permission (an administrator holds all), to see a poste
pub data Aspect : Type 0 where
  administers : Aspect
  may : String → Aspect
  sees : Machine → Aspect

abbrev pub has : Places → Aspect → Authority → Bool
has p administers a = a.is_admin
has p (may permission) a = a.is_admin || contains a.permissions permission
has p (sees m) a = machine_visible p a.scope m

-- What one group gives
abbrev pub group_authority : Ids → Roster → ℕ → Authority
group_authority ids db i = record {
  is_admin = admin_in db.groups i;
  permissions = granted db i;
  scope = scope_of ids db i;
}

not_null-null {ℓ} : {A : Type ℓ} (o : Option A) → is_not_null o ≡ false → is_null o ≡ true
not_null-null none e = refl
not_null-null (some a) e = sym e

-- What a plain account may hand out, it has.
pub reached-has :
    (p : Places) (x : Aspect) (actor target : Authority)
    → actor.is_admin ≡ false
    → beyond actor target ≡ false
    → has p x target ≡ true
    → has p x actor ≡ true
reached-has p x actor target plain e h = by x h
  where
    reach : within_reach actor target ≡ true
    reach =
        sym (escalation-eq-within_reach actor target) ∙ not_null-null (escalation actor target) e

    by : (x : Aspect) → has p x target ≡ true → has p x actor ≡ true
    by administers h = ground (arith, reach)
    by (may permission) h =
        ground (arith, reach, contains-subset target.permissions actor.permissions permission)
    by (sees m) h = wider-visible p actor.scope target.scope m (ground (arith, reach)) h

-- A search of a group's permissions, and of the ones that reach a user
pub contains-granted :
    (rows : List GroupPermission) (f : GroupPermission → Bool) (q : String)
    → contains (map (λ (p : GroupPermission). p.permission) (select f rows)) q
      ≡ any (λ (p : GroupPermission). f p && q == p.permission) rows
contains-granted [] f q = refl
contains-granted (r ∷ rows) f q = ground (arith, contains-granted rows f q)

module _ (ids : Ids) (p : Places) (db : Roster) where
  any-has_scope :
      (is : List ℕ) (m : Machine)
      → any (admin_in db.groups) is ≡ false
      → machine_visible p (Scope.union (map (scope_of ids db) is)) m
        ≡ any (λ i. machine_visible p (scope_of ids db i) m) is
  any-has_scope is m plain =
      machine_visible-union p (map (scope_of ids db) is) m
      ∙ any-map (scope_of ids db) (λ s. machine_visible p s m) is

  admin-sees :
      (i : ℕ) (m : Machine)
      → admin_in db.groups i ≡ true
      → machine_visible p (scope_of ids db i) m ≡ true
  unfolding scope_of machine_visible
  admin-sees i m admin = rw admin refl

  contains-granted_by :
      (is : List ℕ) (q : String)
      → contains (granted_by db is) q ≡ any (λ i. contains (granted db i) q) is
  unfolding granted_by
  contains-granted_by [] q = refl
  contains-granted_by (i ∷ is) q =
      contains-append (granted db i) (granted_by db is) q
      ∙ ap (λ b. contains (granted db i) q || b) (contains-granted_by is q)

  -- Groups together give what one of them gives.
  pub has-groups :
      (x : Aspect) (is : List ℕ)
      → has p x (groups_authority ids db is) ≡ any (λ i. has p x (group_authority ids db i)) is
  unfolding groups_authority Scope.union machine_visible
  has-groups administers [] = refl
  has-groups administers (i ∷ is) = refl
  has-groups (may q) [] = refl
  has-groups (may q) (i ∷ is) =
      ap (λ b. any (admin_in db.groups) (i ∷ is) || b) (contains-granted_by (i ∷ is) q)
      ∙ sym (any-or (admin_in db.groups) (λ j. contains (granted db j) q) (i ∷ is))
  has-groups (sees m) [] = machine_visible-union p [] m
  has-groups (sees m) (i ∷ is) = elim (Bool-cases (any (admin_in db.groups) (i ∷ is))) [
    | inl admin ↦
        rw admin (sym (any-implied (admin_in db.groups) _ (λ j. admin-sees j m) (i ∷ is) admin))
    | inr plain ↦ rw plain (any-has_scope (i ∷ is) m plain)
  ]

  -- The permissions of the groups that a row of `user_groups` names, the administrators' kept apart
  own : String → UserGroup → Bool
  own q m =
      any (λ (r : GroupPermission). r.group_id == m.group_id && q == r.permission)
        db.group_permissions

  granted-own :
      (v : ℕ) (q : String) (m : UserGroup)
      → (m.user_id == v && (admin_in db.groups m.group_id || contains (granted db m.group_id) q))
        ≡ ((m.user_id == v && admin_in db.groups m.group_id) || (m.user_id == v && own q m))
  unfolding granted own
  granted-own v q m = ground (
    arith,
    contains-granted db.group_permissions (λ (r : GroupPermission). r.group_id == m.group_id) q,
  )

  member-own :
      (v : ℕ) (q : String)
      → any
          (λ (r : GroupPermission). is_member db.user_groups v r.group_id && q == r.permission)
          db.group_permissions
        ≡ any (λ (m : UserGroup). m.user_id == v && own q m) db.user_groups
  unfolding is_member own
  member-own v q =
      any-same _ _ db.group_permissions (λ r. spread r db.user_groups)
      ∙ (any-any
            (λ (r : GroupPermission) (m : UserGroup).
              m.user_id == v && (r.group_id == m.group_id && q == r.permission))
            db.group_permissions db.user_groups
          ∙ any-same _ _ db.user_groups (λ m.
            any-and (m.user_id == v)
              (λ (r : GroupPermission). r.group_id == m.group_id && q == r.permission)
              db.group_permissions))
    where
      spread :
          (r : GroupPermission) (rows : List UserGroup)
          → (any (λ (m : UserGroup). m.user_id == v && m.group_id == r.group_id) rows
              && q == r.permission)
            ≡ any
                (λ (m : UserGroup).
                  m.user_id == v && (r.group_id == m.group_id && q == r.permission))
                rows
      spread r [] = refl
      spread r (m ∷ rows) = ground (arith, ==_swap m.group_id r.group_id, spread r rows)

  user-may :
      (v : ℕ) (q : String)
      → (is_admin db v || contains (user_permissions db v) q)
        ≡ any
            (λ (m : UserGroup).
              m.user_id == v
              && (admin_in db.groups m.group_id || contains (granted db m.group_id) q))
            db.user_groups
  unfolding user_permissions
  user-may v q = sym (
      any-same _ _ db.user_groups (granted-own v q)
      ∙ any-or _ _ db.user_groups
      ∙ by (is_admin db v) refl)
    where
      by :
          (b : Bool)
          → is_admin db v ≡ b
          → (is_admin db v || any (λ (m : UserGroup). m.user_id == v && own q m) db.user_groups)
            ≡ (is_admin db v || contains (user_permissions db v) q)
      by true e = rw e refl
      by false e = rw e (
          sym (
            contains-granted db.group_permissions
              (λ (r : GroupPermission). is_member db.user_groups v r.group_id) q
            ∙ member-own v q))

  user-sees :
      (v : ℕ) (m : Machine) (rows : List UserGroup)
      → any
          (λ i. machine_visible p (scope_of ids db i) m)
          (map (λ (r : UserGroup). r.group_id) (select (λ (r : UserGroup). r.user_id == v) rows))
        ≡ any
            (λ (r : UserGroup). r.user_id == v && machine_visible p (scope_of ids db r.group_id) m)
            rows
  user-sees v m [] = refl
  user-sees v m (r ∷ rows) = ground (arith, user-sees v m rows)

  -- An account has what one of its groups gives.
  pub has-user :
      (x : Aspect) (v : ℕ)
      → has p x (user_authority ids db v)
        ≡ any
            (λ (r : UserGroup). r.user_id == v && has p x (group_authority ids db r.group_id))
            db.user_groups
  unfolding user_authority is_admin user_scope user_group_ids machine_visible
  has-user administers v = refl
  has-user (may q) v = user-may v q
  has-user (sees m) v = elim (Bool-cases (is_admin db v)) [
    | inl admin ↦ rw admin (
        sym (any-implied _ _ (λ r h. ground (arith, admin-sees r.group_id m)) db.user_groups admin))
    | inr plain ↦ rw plain (
        machine_visible-union p (map (scope_of ids db) (user_group_ids db v)) m
        ∙ any-map (scope_of ids db) (λ s. machine_visible p s m) (user_group_ids db v)
        ∙ user-sees v m db.user_groups)
  ]
