-- ===== src/User/GroupEdits.antt =====
-- The handlers of backend/app/api/routes/groups.py that change groups, with the same guards and the
-- same log as those of User/Edits.antt. `strip` is Python's; the buildings and the rooms that a scope
-- names are looked up in the places given.
use natimai_tiai.Prelude.{
  ℕ, Bool, false, not, ◌&&◌, ◌||◌, Option, none, some, String, List, [], ◌∷◌, ◌++◌, map, any,
  select, difference, string_eq, nat_eq, ◌==◌, if◌then◌else◌, coalesce_to, is_not_null, is_null,
  eq_value,
}
use natimai_tiai.Prelude.Time.{Instant}
use natimai_tiai.Room.{building_by_id, room_by_id}
use natimai_tiai.User.Scope.{Scope, Places, is_empty}
use natimai_tiai.User.Permissions.{Authority, is_nil}
use natimai_tiai.User.Groups.{
  Ids, Roster, Group, GroupPermission, GroupScope, UserGroup, all_permissions, is_admin_group,
  group_by_id, set_group_permissions, set_group_scope, scope_of, scope_rows, granted,
  user_authority, groups_authority, user_permissions,
}
use natimai_tiai.Answers.{refused, committed, reject}
use natimai_tiai.User.Edits.{
  permission_denied, group_not_found, beyond_reach, name_taken, permission_unknown, scope_unknown,
  builtin_protected, Caller, Words, may_write, sent, beyond, reject_lockout, entry, logged, Reply,
}

pub record ScopeBody : Type 0 where
  pub locations : List String
  pub buildings : List ℕ
  pub rooms : List ℕ

pub record GroupCreate : Type 0 where
  pub name : String
  pub description : Option String
  pub permissions : List String
  pub scope : Option ScopeBody

-- A field that is not sent is none; a scope sent as null is `some none`.
pub record GroupUpdate : Type 0 where
  pub name : Option String
  pub description : Option (Option String)
  pub permissions : Option (List String)
  pub scope : Option (Option ScopeBody)

-- Whether `_reject_name_taken` raises
pub name_is_taken : List Group → String → Option ℕ → Bool
name_is_taken groups name exclude =
    any (λ (g : Group). g.name == name && not (eq_value exclude g.id)) groups

-- Whether `_validate_permissions` raises
pub unknown_permission : List String → Bool
unfolding all_permissions
unknown_permission permissions = not (is_nil (difference permissions all_permissions))

-- Whether `_validate_scope` raises
pub unknown_place : Places → Option Scope → Bool
unknown_place places none = false
unknown_place places (some s) =
    any (λ i. is_null (building_by_id places.buildings i)) s.buildings
    || any (λ i. is_null (room_by_id places.rooms i)) s.rooms

-- The names of the fields sent, sorted, the permissions and the scope taken out
pub group_fields_sent : GroupUpdate → List String
group_fields_sent f =
    (if is_not_null f.description then "description" ∷ [] else [])
    ++ (if is_not_null f.name then "name" ∷ [] else [])

-- The row after the `setattr`s
unfoldable pub updated_group : Instant → GroupUpdate → Group → Group
updated_group now f g = record g {
  name = coalesce_to f.name g.name;
  description = coalesce_to f.description g.description;
  updated_at = now;
}

unfoldable pub put_group : Group → List Group → List Group
put_group g' [] = []
put_group g' (g ∷ groups) =
    let rest = put_group g' groups in if g.id == g'.id then g' ∷ groups else g ∷ rest

module _ (ids : Ids) (words : Words) (strip : String → String) (places : Places) where
  -- `ScopeBody.to_scope`
  unfoldable pub to_scope : ScopeBody → Option Scope
  unfolding is_empty
  to_scope body =
      let s : Scope = record {
        locations = map strip (select (λ v. not (strip v == "")) body.locations);
        buildings = body.buildings;
        rooms = body.rooms;
      } in
      if is_empty s then none else some s

  -- What `_validate_scope` answers, where it does not raise
  unfoldable pub scope_sent : Option ScopeBody → Option Scope
  unfolding to_scope
  scope_sent none = none
  scope_sent (some body) = to_scope body

  abbrev created_group : ℕ → Caller → GroupCreate → Roster → Roster
  created_group id c payload db = record db {
    groups =
        db.groups
        ++ record {
          id = id;
          name = payload.name;
          description = payload.description;
          builtin_key = none;
          updated_at = c.now;
        }
          ∷ [];
    group_permissions = set_group_permissions id payload.permissions db.group_permissions;
    group_scopes = set_group_scope ids id (scope_sent payload.scope) db.group_scopes;
  }

  -- `create_group`
  unfoldable pub create_group : ℕ → Caller → GroupCreate → Roster → Reply
  unfolding may_write name_is_taken unknown_permission unknown_place scope_sent
  create_group id c payload db =
      reject (not (may_write (user_permissions db c.current.id))) permission_denied (
        reject (name_is_taken db.groups payload.name none) name_taken (
          reject (unknown_permission payload.permissions) permission_unknown (
            reject (unknown_place places (scope_sent payload.scope)) scope_unknown (
              reject
                (beyond (user_authority ids db c.current.id) (record {
                  is_admin = false;
                  permissions = payload.permissions;
                  scope = scope_sent payload.scope;
                }))
                beyond_reach
                (committed (
                  logged
                    (entry c "group.create" "group" (ids.print_id id) (
                      ("name", some payload.name)
                      ∷ ("permissions", some (words.texts payload.permissions))
                      ∷ elim (scope_sent payload.scope) [
                        | none ↦ []
                        | some s ↦ ("scope", some (words.pairs (scope_rows ids s))) ∷ []
                      ]))
                    (created_group id c payload db)))))))

  -- What an update grants once it is written
  unfoldable pub grants_of : GroupUpdate → Roster → Group → Authority
  unfolding granted scope_of scope_sent
  grants_of f db g = record {
    is_admin = false;
    permissions = coalesce_to f.permissions (granted db g.id);
    scope = elim f.scope [ none ↦ scope_of ids db g.id | some body ↦ scope_sent body ];
  }

  -- What `update_group` writes, before the log
  abbrev edited_group : Caller → GroupUpdate → Group → Roster → Roster
  edited_group c f g db = record db {
    groups = put_group (updated_group c.now f g) db.groups;
    group_permissions = elim f.permissions [
      | none ↦ db.group_permissions
      | some permissions ↦ set_group_permissions g.id permissions db.group_permissions
    ];
    group_scopes = elim f.scope [
      | none ↦ db.group_scopes
      | some body ↦ set_group_scope ids g.id (scope_sent body) db.group_scopes
    ];
  }

  abbrev scope_detail : Option (Option ScopeBody) → List (String × Option String)
  scope_detail none = []
  scope_detail (some body) =
      (
        "scope",
        elim (scope_sent body) [ none ↦ none | some s ↦ some (words.pairs (scope_rows ids s)) ],
      )
      ∷ []

  -- `update_group`, of a group that is there
  unfoldable pub update_group_found : Caller → GroupUpdate → Roster → Group → Reply
  unfolding name_is_taken unknown_permission unknown_place grants_of updated_group put_group
      group_fields_sent reject_lockout
  update_group_found c f db g =
      reject (beyond (user_authority ids db c.current.id) (groups_authority ids db (g.id ∷ [])))
        beyond_reach
        (reject (is_not_null f.permissions && is_admin_group g) builtin_protected (
          reject
            (sent (λ name. not (name == g.name) && name_is_taken db.groups name (some g.id)) f.name)
            name_taken
            (reject (sent unknown_permission f.permissions) permission_unknown (
              reject (is_not_null f.scope && is_admin_group g) builtin_protected (
                reject (sent (λ body. unknown_place places (scope_sent body)) f.scope) scope_unknown
                  (reject
                    ((is_not_null f.permissions || is_not_null f.scope)
                      && beyond (user_authority ids db c.current.id) (grants_of f db g))
                    beyond_reach
                    (reject_lockout (
                      logged
                        (entry c "group.update" "group" (ids.print_id g.id) (
                          ("name", some (updated_group c.now f g).name)
                            ∷ ("fields", some (words.texts (group_fields_sent f)))
                            ∷ elim f.permissions [
                              | none ↦ []
                              | some permissions ↦
                                  ("permissions", some (words.texts permissions)) ∷ []
                            ]
                          ++ scope_detail f.scope))
                        (edited_group c f g db)))))))))

  -- `update_group`
  unfoldable pub update_group : ℕ → Caller → GroupUpdate → Roster → Reply
  unfolding may_write update_group_found
  update_group id c f db =
      reject (not (may_write (user_permissions db c.current.id))) permission_denied
        (elim (group_by_id db.groups id) [
          | none ↦ refused group_not_found
          | some g ↦ update_group_found c f db g
        ])

  -- `session.delete(group)`, with what the database takes with it
  abbrev without_group : Group → Roster → Roster
  without_group g db = record db {
    groups = select (λ (h : Group). not (h.id == g.id)) db.groups;
    group_permissions =
        select (λ (p : GroupPermission). not (p.group_id == g.id)) db.group_permissions;
    group_scopes = select (λ (r : GroupScope). not (r.group_id == g.id)) db.group_scopes;
    user_groups = select (λ (m : UserGroup). not (m.group_id == g.id)) db.user_groups;
  }

  unfoldable pub delete_group_found : Caller → Roster → Group → Reply
  unfolding reject_lockout
  delete_group_found c db g = reject (is_not_null g.builtin_key) builtin_protected (
      reject (beyond (user_authority ids db c.current.id) (groups_authority ids db (g.id ∷ [])))
        beyond_reach
        (reject_lockout (
          without_group g (
            logged (entry c "group.delete" "group" (ids.print_id g.id) (("name", some g.name) ∷ []))
              db))))

  -- `delete_group`
  unfoldable pub delete_group : ℕ → Caller → Roster → Reply
  unfolding may_write delete_group_found
  delete_group id c db =
      reject (not (may_write (user_permissions db c.current.id))) permission_denied
        (elim (group_by_id db.groups id) [
          | none ↦ refused group_not_found
          | some g ↦ delete_group_found c db g
        ])
