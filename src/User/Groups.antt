-- ===== src/User/Groups.antt =====
-- The part of backend/app/features/user/crud.py on groups, with the rows of models.py: who is in
-- which group, and what the groups grant together. A set of identifiers or of permissions is a list
-- that only `contains` reads. Identifiers are printed and read by a library; names only words.
pub mod Reach
pub mod Writes
use natimai_tiai.Prelude.{
  ℕ, ltb, Bool, true, false, not, ◌&&◌, ◌||◌, Option, none, some, String, List, [], ◌∷◌, ◌++◌, map,
  any, select, count_where, string_eq, nat_eq, ◌==◌, if◌then◌else◌, eq_value,
}
use natimai_tiai.Prelude.Time.{Instant}
use natimai_tiai.Audit.{AuditEntry}
use natimai_tiai.User.Scope
use natimai_tiai.User.Scope.{Scope}
use natimai_tiai.User.Permissions.{
  Resource, Action, Authority, permission_catalogue, permission_key, resource_value, action_value,
}
use natimai_tiai.User.Accounts.{User, Accounts}

pub record Group : Type 0 where
  pub id : ℕ
  pub name : String
  pub description : Option String
  pub builtin_key : Option String
  pub updated_at : Instant

pub record GroupPermission : Type 0 where
  pub group_id : ℕ
  pub permission : String

pub record GroupScope : Type 0 where
  pub group_id : ℕ
  pub kind : String
  pub value : String

pub record UserGroup : Type 0 where
  pub user_id : ℕ
  pub group_id : ℕ

-- The tables that the console's edits of accounts and groups read and write
pub record Roster : Type 0 where
  pub accounts : Accounts
  pub groups : List Group
  pub group_permissions : List GroupPermission
  pub group_scopes : List GroupScope
  pub user_groups : List UserGroup
  pub audit_log : List AuditEntry

-- The text of a UUID, and `uuid.UUID(text)`, none where it raises
pub record Ids : Type 0 where
  pub print_id : ℕ → String
  pub parse_id : String → Option ℕ

-- ALL_PERMISSIONS
unfoldable pub all_permissions : List String
unfolding permission_key
all_permissions =
    map (λ (p : Resource × Action). permission_key (resource_value p.0) (action_value p.1))
      permission_catalogue

-- `is_admin_group`
abbrev pub is_admin_group : Group → Bool
is_admin_group g = eq_value g.builtin_key "admin"

abbrev pub group_by_id : List Group → ℕ → Option Group
group_by_id [] i = none
group_by_id (g ∷ groups) i = if g.id == i then some g else group_by_id groups i

-- A group with this identifier has the administrators' key
unfoldable pub admin_in : List Group → ℕ → Bool
admin_in groups i = any (λ (g : Group). g.id == i && is_admin_group g) groups

-- `is_admin`
unfoldable pub is_admin : Roster → ℕ → Bool
unfolding admin_in
is_admin db user_id =
    any (λ (m : UserGroup). m.user_id == user_id && admin_in db.groups m.group_id) db.user_groups

-- Whether the user is in the group
unfoldable pub is_member : List UserGroup → ℕ → ℕ → Bool
is_member rows user_id group_id =
    any (λ (m : UserGroup). m.user_id == user_id && m.group_id == group_id) rows

-- `user_permissions`
unfoldable pub user_permissions : Roster → ℕ → List String
unfolding is_admin is_member all_permissions
user_permissions db user_id =
    if is_admin db user_id
    then all_permissions
    else map (λ (p : GroupPermission). p.permission)
        (select (λ (p : GroupPermission). is_member db.user_groups user_id p.group_id)
          db.group_permissions)

-- `group_permissions`, and an entry of `permissions_of_groups`
unfoldable pub granted : Roster → ℕ → List String
unfolding admin_in all_permissions
granted db i =
    if admin_in db.groups i
    then all_permissions
    else map (λ (p : GroupPermission). p.permission)
        (select (λ (p : GroupPermission). p.group_id == i) db.group_permissions)

-- The union of the permissions of several groups
unfoldable pub granted_by : Roster → List ℕ → List String
unfolding granted
granted_by db [] = []
granted_by db (i ∷ is) = granted db i ++ granted_by db is

-- `set_group_permissions`, on its table
unfoldable pub set_group_permissions : ℕ → List String → List GroupPermission → List GroupPermission
set_group_permissions i permissions rows =
    select (λ (p : GroupPermission). not (p.group_id == i)) rows
    ++ map (λ permission. record { group_id = i; permission = permission }) permissions

-- `user_group_ids`
unfoldable pub user_group_ids : Roster → ℕ → List ℕ
user_group_ids db user_id =
    map (λ (m : UserGroup). m.group_id)
      (select (λ (m : UserGroup). m.user_id == user_id) db.user_groups)

-- `set_user_groups`, on its table
unfoldable pub set_user_groups : ℕ → List ℕ → List UserGroup → List UserGroup
set_user_groups user_id group_ids rows =
    select (λ (m : UserGroup). not (m.user_id == user_id)) rows
    ++ map (λ i. record { user_id = user_id; group_id = i }) group_ids

module _ (ids : Ids) where
  -- A turn of the loop of `Scope.from_rows`
  unfoldable pub add_place : String → String → Scope → Scope
  add_place kind value s =
      if kind == "location"
      then record s { locations = value ∷ s.locations }
      else elim (ids.parse_id value) [
        | none ↦ s
        | some i ↦
            if kind == "building"
            then record s { buildings = i ∷ s.buildings }
            else if kind == "room"
            then record s { rooms = i ∷ s.rooms }
            else s
      ]

  -- `Scope.from_rows`
  unfoldable pub from_rows : List (String × String) → Scope
  unfolding add_place
  from_rows [] = Scope.empty
  from_rows ((kind, value) ∷ rows) = add_place kind value (from_rows rows)

  -- `Scope.rows`
  unfoldable pub scope_rows : Scope → List (String × String)
  scope_rows s =
      map (λ v. ("location", v)) s.locations
      ++ (map (λ i. ("building", ids.print_id i)) s.buildings
          ++ map (λ i. ("room", ids.print_id i)) s.rooms)

  -- The scope of the rows of one group: none for none
  unfoldable pub scope_of_rows : List GroupScope → Option Scope
  unfolding from_rows
  scope_of_rows [] = none
  scope_of_rows (r ∷ rows) =
      some (from_rows (map (λ (r : GroupScope). (r.kind, r.value)) (r ∷ rows)))

  -- An entry of `scopes_of_groups`
  unfoldable pub scope_of : Roster → ℕ → Option Scope
  unfolding admin_in scope_of_rows
  scope_of db i =
      if admin_in db.groups i
      then none
      else scope_of_rows (select (λ (r : GroupScope). r.group_id == i) db.group_scopes)

  -- `set_group_scope`, on its table
  unfoldable pub set_group_scope : ℕ → Option Scope → List GroupScope → List GroupScope
  unfolding scope_rows
  set_group_scope i scope rows =
      select (λ (r : GroupScope). not (r.group_id == i)) rows ++ elim scope [
        | none ↦ []
        | some s ↦
            map (λ (kv : String × String). record { group_id = i; kind = kv.0; value = kv.1 })
              (scope_rows s)
      ]

  -- `user_scope`
  unfoldable pub user_scope : Roster → ℕ → Option Scope
  unfolding is_admin user_group_ids scope_of
  user_scope db user_id =
      if is_admin db user_id
      then none
      else Scope.union (map (scope_of db) (user_group_ids db user_id))

  -- `user_authority`
  unfoldable pub user_authority : Roster → ℕ → Authority
  unfolding is_admin user_permissions user_scope
  user_authority db user_id = record {
    is_admin = is_admin db user_id;
    permissions = user_permissions db user_id;
    scope = user_scope db user_id;
  }

  -- `groups_authority`
  unfoldable pub groups_authority : Roster → List ℕ → Authority
  unfolding admin_in granted_by scope_of
  groups_authority db [] = record { is_admin = false; permissions = []; scope = some Scope.empty }
  groups_authority db (i ∷ is) =
      let is_admin_ = any (admin_in db.groups) (i ∷ is) in
      record {
        is_admin = is_admin_;
        permissions = granted_by db (i ∷ is);
        scope = if is_admin_ then none else Scope.union (map (scope_of db) (i ∷ is));
      }

-- The WHERE of `users_holding`, over its joins
unfoldable pub holds : Roster → String → User → Bool
holds db permission u =
    u.is_active
    && any
        (λ (m : UserGroup).
          m.user_id == u.id
          && any
              (λ (g : Group).
                g.id == m.group_id
                && (any (λ (p : GroupPermission). p.group_id == g.id && p.permission == permission)
                      db.group_permissions
                    || is_admin_group g))
              db.groups)
        db.user_groups

-- `users_holding`
unfoldable pub users_holding : Roster → String → ℕ
unfolding holds
users_holding db permission = count_where (holds db permission) db.accounts.users
