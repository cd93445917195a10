-- ===== src/User/Requests/GroupGains.antt =====
-- What the committed edits of groups give, and to whom.
use natimai_tiai.Prelude.{
  ℕ, ◌≡◌, refl, sym, ◌∙◌, ap, ap₂, subst, Bool, true, false, not, ◌&&◌, ◌||◌, inl, inr, Option,
  none, some, String, List, [], ◌∷◌, map, any, select, string_eq, nat_eq, ◌==◌, ==_sound, arith,
  Bool-cases, and_true, is_not_null, coalesce_to,
}
use natimai_tiai.Audit.{AuditEntry}
use natimai_tiai.User.Scope.{Scope, Places}
use natimai_tiai.User.Groups.{
  Ids, Roster, Group, GroupPermission, GroupScope, UserGroup, admin_in, is_admin, granted, scope_of,
  scope_of_rows, set_group_permissions, set_group_scope, group_by_id, user_authority,
  groups_authority,
}
use natimai_tiai.User.Groups.Writes.{
  permissions_in, select-other, confines, set_group_permissions_self, set_group_permissions-other,
  set_group_scope_self, set_group_scope-other,
}
use natimai_tiai.Answers.{Commits, guarded, found-Commits}
use natimai_tiai.User.Edits.{Caller, Words, beyond}
use natimai_tiai.User.GroupEdits.{
  ScopeBody, GroupCreate, GroupUpdate, put_group, updated_group, to_scope, scope_sent, create_group,
  update_group, delete_group, update_group_found, delete_group_found, grants_of,
}
use natimai_tiai.User.Requests.Aspects.{
  Aspect, administers, has, group_authority, reached-has, has-user,
}
use natimai_tiai.User.Requests.Gains.{gives, granted-has, Bounded}
use natimai_tiai.User.Requests.Tables.{
  places_in, from_tables, group_authority-tables, admin_in-append, admin_in-put, tables-authority,
}

module _ (ids : Ids) (ids_read : (i : ℕ) → ids.parse_id (ids.print_id i) ≡ some i) (p : Places)
    (x : Aspect) (c : Caller) (db : Roster) (plain : is_admin db c.current.id ≡ false) where
  -- What one group gives after an edit, it gave, or the caller has.
  abbrev GroupBounded : Roster → ℕ → Type 0
  GroupBounded db' i =
      has p x (group_authority ids db' i) ≡ true
      → (has p x (group_authority ids db i) || has p x (user_authority ids db c.current.id)) ≡ true

  rows-Bounded :
      (db' : Roster) (rows : List UserGroup)
      → ((i : ℕ) → GroupBounded db' i)
      → (v : ℕ) → any (gives (λ i. has p x (group_authority ids db' i)) v) rows ≡ true
      → (any (gives (λ i. has p x (group_authority ids db i)) v) rows
          || has p x (user_authority ids db c.current.id))
        ≡ true
  rows-Bounded db' [] b v h = ground (arith, h)
  rows-Bounded db' (r ∷ rows) b v h = ground (arith, h, b r.group_id, rows-Bounded db' rows b v)

  groups-Bounded :
      (db' : Roster)
      → db'.user_groups ≡ db.user_groups
      → ((i : ℕ) → GroupBounded db' i)
      → Bounded ids p x c db plain db'
  groups-Bounded db' same b v h =
      ap (λ t. t || has p x (user_authority ids db c.current.id)) (has-user ids p db x v)
      ∙ rows-Bounded db' db.user_groups b v (
          subst (λ rows. any (gives (λ i. has p x (group_authority ids db' i)) v) rows ≡ true) same
            (sym (has-user ids p db' x v) ∙ h))

  -- A group that gives what it gave
  same-GroupBounded :
      (db' : Roster) (i : ℕ)
      → group_authority ids db' i ≡ group_authority ids db i
      → GroupBounded db' i
  same-GroupBounded db' i e h = ground (arith, sym (ap (has p x) e) ∙ h)

  -- The group that is written: the administrators' gives what it gave.
  written-GroupBounded :
      (db' : Roster) (i : ℕ) (b : Bool) (permissions : List String) (scope : Option Scope)
      → admin_in db.groups i ≡ b
      → group_authority ids db' i ≡ from_tables b permissions scope
      → (b ≡ false
          → beyond
              (user_authority ids db c.current.id)
              (record { is_admin = false; permissions = permissions; scope = scope })
            ≡ false)
      → GroupBounded db' i
  written-GroupBounded db' i true permissions scope old new within h =
      same-GroupBounded db' i
        (new
          ∙ ap
              (λ b.
                from_tables b (permissions_in i db.group_permissions)
                  (places_in ids i db.group_scopes))
              (sym old)
          ∙ sym (group_authority-tables ids db i))
        h
  written-GroupBounded db' i false permissions scope old new within h = ground (
    arith,
    reached-has p x (user_authority ids db c.current.id)
        (record { is_admin = false; permissions = permissions; scope = scope })
        (unfold user_authority in plain) (within refl) (sym (ap (has p x) new) ∙ h),
  )

  -- Tables that give a group what they gave
  kept-GroupBounded :
      (db' : Roster) (i : ℕ)
      → admin_in db'.groups i ≡ admin_in db.groups i
      → permissions_in i db'.group_permissions ≡ permissions_in i db.group_permissions
      → places_in ids i db'.group_scopes ≡ places_in ids i db.group_scopes
      → GroupBounded db' i
  kept-GroupBounded db' i e f g =
      same-GroupBounded db' i
        (tables-authority ids db' i _ _ _ e f g ∙ sym (group_authority-tables ids db i))

  module _ (words : Words) (strip : String → String) where
    confines-scope_sent :
        (body : Option ScopeBody) → confines ids ids_read (scope_sent ids words strip p body) ≡ true
    unfolding scope_sent to_scope
    confines-scope_sent none = refl
    confines-scope_sent (some body) = ground arith

    pub create_group-Bounded :
        (id : ℕ) (payload : GroupCreate)
        → Commits (Bounded ids p x c db plain) (create_group ids words strip p id c payload db)
    unfolding create_group
    create_group-Bounded id payload = guarded _ _ _ _ λ _. guarded _ _ _ _ λ _. guarded _ _ _ _ λ _.
        guarded _ _ _ _ λ _. guarded _ _ _ _ λ within. groups-Bounded _ refl λ i.
          elim (Bool-cases (i == id)) [
            | inl here ↦ subst (GroupBounded _) (sym (==_sound i id here)) (
                written-GroupBounded _ id (admin_in db.groups id) payload.permissions
                  (scope_sent ids words strip p payload.scope) refl
                  (tables-authority ids _ id _ _ _ (admin_in-append db.groups _ id refl)
                    (set_group_permissions_self id payload.permissions db.group_permissions)
                    (set_group_scope_self ids ids_read id
                      (scope_sent ids words strip p payload.scope) db.group_scopes
                      (confines-scope_sent payload.scope)))
                  (λ _. within))
            | inr other ↦
                kept-GroupBounded _ i (admin_in-append db.groups _ i refl)
                  (set_group_permissions-other i id payload.permissions db.group_permissions other)
                  (ap (scope_of_rows ids) (
                    set_group_scope-other ids ids_read i id
                      (scope_sent ids words strip p payload.scope) db.group_scopes other))
          ]

    abbrev edited_permissions : ℕ → Option (List String) → List GroupPermission
    edited_permissions id o = elim o [
      | none ↦ db.group_permissions
      | some permissions ↦ set_group_permissions id permissions db.group_permissions
    ]

    abbrev edited_scopes : ℕ → Option (Option ScopeBody) → List GroupScope
    edited_scopes id o = elim o [
      | none ↦ db.group_scopes
      | some body ↦ set_group_scope ids id (scope_sent ids words strip p body) db.group_scopes
    ]

    abbrev scope_after : ℕ → Option (Option ScopeBody) → Option Scope
    scope_after id o = elim o [
      | none ↦ places_in ids id db.group_scopes
      | some body ↦ scope_sent ids words strip p body
    ]

    permissions_self :
        (id : ℕ) (o : Option (List String))
        → permissions_in id (edited_permissions id o)
          ≡ coalesce_to o (permissions_in id db.group_permissions)
    permissions_self id none = refl
    permissions_self id (some permissions) =
        set_group_permissions_self id permissions db.group_permissions

    scopes_self :
        (id : ℕ) (o : Option (Option ScopeBody))
        → places_in ids id (edited_scopes id o) ≡ scope_after id o
    scopes_self id none = refl
    scopes_self id (some body) =
        set_group_scope_self ids ids_read id (scope_sent ids words strip p body) db.group_scopes
          (confines-scope_sent body)

    permissions-kept :
        (i id : ℕ) (o : Option (List String))
        → (is_not_null o && (i == id)) ≡ false
        → permissions_in i (edited_permissions id o) ≡ permissions_in i db.group_permissions
    permissions-kept i id none e = refl
    permissions-kept i id (some permissions) e =
        set_group_permissions-other i id permissions db.group_permissions e

    scopes-kept :
        (i id : ℕ) (o : Option (Option ScopeBody))
        → (is_not_null o && (i == id)) ≡ false
        → places_in ids i (edited_scopes id o) ≡ places_in ids i db.group_scopes
    scopes-kept i id none e = refl
    scopes-kept i id (some body) e = ap (scope_of_rows ids) (
        set_group_scope-other ids ids_read i id (scope_sent ids words strip p body) db.group_scopes
          e)

    -- A group that a plain account may edit is not the administrators'.
    not_admin :
        (id : ℕ)
        → beyond (user_authority ids db c.current.id) (groups_authority ids db (id ∷ [])) ≡ false
        → admin_in db.groups id ≡ false
    unfolding user_authority
    not_admin id e = elim (Bool-cases (admin_in db.groups id)) [
      | inl admin ↦ cc (granted-has ids p administers c db plain (id ∷ []) e (rw admin refl))
      | inr other ↦ other
    ]

    grants_of-tables :
        (f : GroupUpdate) (g : Group)
        → admin_in db.groups g.id ≡ false
        → grants_of ids words strip p f db g ≡ record {
          is_admin = false;
          permissions = coalesce_to f.permissions (permissions_in g.id db.group_permissions);
          scope = scope_after g.id f.scope;
        }
    unfolding grants_of granted scope_of
    grants_of-tables f g e =
        ap₂
          (λ permissions scope. record {
            is_admin = false;
            permissions = coalesce_to f.permissions permissions;
            scope = scope;
          })
          permissions (after f.scope)
      where
        permissions : granted db g.id ≡ permissions_in g.id db.group_permissions
        permissions = rw e refl

        after :
            (o : Option (Option ScopeBody))
            → elim o as (λ _. Option Scope) [
              | none ↦ scope_of ids db g.id
              | some body ↦ scope_sent ids words strip p body
            ]
              ≡ scope_after g.id o
        after none = rw e refl
        after (some body) = refl

    and_rest : (a b : Bool) → a ≡ true → (a && b) ≡ false → b ≡ false
    and_rest a b h k = ground (arith, h, k)

    abbrev edited : GroupUpdate → Group → List AuditEntry → Roster
    edited f g log = record db {
      groups = put_group (updated_group c.now f g) db.groups;
      group_permissions = edited_permissions g.id f.permissions;
      group_scopes = edited_scopes g.id f.scope;
      audit_log = log;
    }

    edited_self :
        (f : GroupUpdate) (g : Group) (log : List AuditEntry) (id : ℕ)
        → group_by_id db.groups id ≡ some g
        → admin_in db.groups g.id ≡ false
        → beyond (user_authority ids db c.current.id) (grants_of ids words strip p f db g) ≡ false
        → GroupBounded (edited f g log) g.id
    edited_self f g log id found other within =
        written-GroupBounded (edited f g log) g.id false _ _ other
          (tables-authority ids (edited f g log) g.id _ _ _
            (admin_in-put db.groups c.now f id g.id g found ∙ other)
            (permissions_self g.id f.permissions) (scopes_self g.id f.scope))
          (λ _.
            subst (λ a. beyond (user_authority ids db c.current.id) a ≡ false)
              (grants_of-tables f g other) within)

    edited-GroupBounded :
        (f : GroupUpdate) (g : Group) (log : List AuditEntry) (id : ℕ)
        → group_by_id db.groups id ≡ some g
        → admin_in db.groups g.id ≡ false
        → ((is_not_null f.permissions || is_not_null f.scope)
            && beyond (user_authority ids db c.current.id) (grants_of ids words strip p f db g))
          ≡ false
        → (i : ℕ) → GroupBounded (edited f g log) i
    edited-GroupBounded f g log id found other within i =
        elim (Bool-cases ((is_not_null f.permissions || is_not_null f.scope) && (i == g.id))) [
          | inl here ↦
              let (sent_, same) =
                and_true (is_not_null f.permissions || is_not_null f.scope) (i == g.id) here in
              subst (GroupBounded (edited f g log)) (sym (==_sound i g.id same))
                (edited_self f g log id found other (and_rest _ _ sent_ within))
          | inr apart ↦
              kept-GroupBounded (edited f g log) i (admin_in-put db.groups c.now f id i g found)
                (permissions-kept i g.id f.permissions (ground arith))
                (scopes-kept i g.id f.scope (ground arith))
        ]

    edited-Bounded :
        (f : GroupUpdate) (g : Group) (log : List AuditEntry) (id : ℕ)
        → group_by_id db.groups id ≡ some g
        → admin_in db.groups g.id ≡ false
        → ((is_not_null f.permissions || is_not_null f.scope)
            && beyond (user_authority ids db c.current.id) (grants_of ids words strip p f db g))
          ≡ false
        → Bounded ids p x c db plain (edited f g log)
    edited-Bounded f g log id found other within =
        groups-Bounded (edited f g log) refl (edited-GroupBounded f g log id found other within)

    pub update_group-Bounded :
        (id : ℕ) (f : GroupUpdate)
        → Commits (Bounded ids p x c db plain) (update_group ids words strip p id c f db)
    unfolding update_group
    update_group-Bounded id f = guarded _ _ _ _ λ _.
        found-Commits _ _ (update_group_found ids words strip p c f db) (group_by_id db.groups id)
          λ g found. guarded _ _ _ _ λ own. guarded _ _ _ _ λ _. guarded _ _ _ _ λ _.
            guarded _ _ _ _ λ _. guarded _ _ _ _ λ _. guarded _ _ _ _ λ _. guarded _ _ _ _ λ within.
              guarded _ _ _ _ λ _. edited-Bounded f g _ id found (not_admin g.id own) within

    -- Without a group, the members of the others have what they had.
    abbrev without : Group → List AuditEntry → Roster
    without g log = record db {
      groups = select (λ (h : Group). not (h.id == g.id)) db.groups;
      group_permissions =
          select (λ (r : GroupPermission). not (r.group_id == g.id)) db.group_permissions;
      group_scopes = select (λ (r : GroupScope). not (r.group_id == g.id)) db.group_scopes;
      user_groups = select (λ (m : UserGroup). not (m.group_id == g.id)) db.user_groups;
      audit_log = log;
    }

    admin_in-without :
        (groups : List Group) (i id : ℕ)
        → (i == id) ≡ false
        → admin_in (select (λ (h : Group). not (h.id == id)) groups) i ≡ admin_in groups i
    unfolding admin_in
    admin_in-without [] i id ne = refl
    admin_in-without (h ∷ groups) i id ne = ground (arith, admin_in-without groups i id ne)

    without-group :
        (g : Group) (log : List AuditEntry) (i : ℕ)
        → (i == g.id) ≡ false
        → GroupBounded (without g log) i
    without-group g log i ne =
        kept-GroupBounded (without g log) i (admin_in-without db.groups i g.id ne)
          (ap (map (λ (r : GroupPermission). r.permission))
            (select-other (λ (r : GroupPermission). r.group_id) i g.id db.group_permissions ne))
          (ap (scope_of_rows ids)
            (select-other (λ (r : GroupScope). r.group_id) i g.id db.group_scopes ne))

    without-rows :
        (g : Group) (log : List AuditEntry) (v : ℕ) (rows : List UserGroup)
        → any
            (gives (λ i. has p x (group_authority ids (without g log) i)) v)
            (select (λ (m : UserGroup). not (m.group_id == g.id)) rows)
          ≡ true
        → (any (gives (λ i. has p x (group_authority ids db i)) v) rows
            || has p x (user_authority ids db c.current.id))
          ≡ true
    without-rows g log v [] h = ground (arith, h)
    without-rows g log v (r ∷ rows) h =
        ground (arith, h, without-group g log r.group_id, without-rows g log v rows)

    without-Bounded :
        (g : Group) (log : List AuditEntry) → Bounded ids p x c db plain (without g log)
    without-Bounded g log v h =
        ap (λ t. t || has p x (user_authority ids db c.current.id)) (has-user ids p db x v)
        ∙ without-rows g log v db.user_groups (sym (has-user ids p (without g log) x v) ∙ h)

    pub delete_group-Bounded :
        (id : ℕ) → Commits (Bounded ids p x c db plain) (delete_group ids words strip p id c db)
    unfolding delete_group
    delete_group-Bounded id = guarded _ _ _ _ λ _.
        found-Commits _ _ (delete_group_found ids words strip p c db) (group_by_id db.groups id)
          λ g found.
            guarded _ _ _ _ λ _. guarded _ _ _ _ λ _. guarded _ _ _ _ λ _. without-Bounded g _
