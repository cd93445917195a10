-- ===== src/User/Requests/Tables.antt =====
-- What the tables give a group, before and after an edit of the groups.
use natimai_tiai.Prelude.{
  ℕ, ◌≡◌, refl, sym, ◌∙◌, ap, ap₂, subst, Bool, true, false, ◌&&◌, inl, inr, Option, none, some,
  String, List, [], ◌∷◌, ◌++◌, select, string_eq, nat_eq, ◌==◌, ==_refl, some_injective,
  if◌then◌else◌, arith, Bool-cases, any-append,
}
use natimai_tiai.Prelude.Time.{Instant}
use natimai_tiai.User.Scope.{Scope}
use natimai_tiai.User.Permissions.{Authority}
use natimai_tiai.User.Groups.{
  Ids, Roster, Group, GroupScope, all_permissions, admin_in, is_admin_group, granted, scope_of,
  scope_of_rows, group_by_id,
}
use natimai_tiai.User.Groups.Writes.{permissions_in}
use natimai_tiai.User.GroupEdits.{GroupUpdate, put_group, updated_group}
use natimai_tiai.User.Requests.Aspects.{group_authority}

-- The places that the table gives a group
abbrev pub places_in : Ids → ℕ → List GroupScope → Option Scope
places_in ids i rows = scope_of_rows ids (select (λ (r : GroupScope). r.group_id == i) rows)

-- What the tables give a group: the administrators' has everything.
abbrev pub from_tables : Bool → List String → Option Scope → Authority
from_tables admin permissions scope = record {
  is_admin = admin;
  permissions = if admin then all_permissions else permissions;
  scope = if admin then none else scope;
}

pub group_authority-tables :
    (ids : Ids) (db : Roster) (i : ℕ)
    → group_authority ids db i
      ≡ from_tables
          (admin_in db.groups i)
          (permissions_in i db.group_permissions)
          (places_in ids i db.group_scopes)
unfolding granted scope_of
group_authority-tables ids db i = refl

pub admin_in-append :
    (groups : List Group) (g : Group) (i : ℕ)
    → is_admin_group g ≡ false
    → admin_in (groups ++ g ∷ []) i ≡ admin_in groups i
unfolding admin_in
admin_in-append groups g i e =
    any-append (λ (h : Group). h.id == i && is_admin_group h) groups (g ∷ []) ∙ ground (arith, e)

pub group_by_id-id :
    (groups : List Group) (id : ℕ) (g : Group)
    → group_by_id groups id ≡ some g
    → (g.id == id) ≡ true
group_by_id-id [] id g found = cc
group_by_id-id (h ∷ groups) id g found = elim (Bool-cases (h.id == id)) [
  | inl here ↦
      subst (λ (k : Group). (k.id == id) ≡ true)
        (some_injective h g
          (sym (ap (λ b. if b then some h else group_by_id groups id) here) ∙ found))
        here
  | inr later ↦
      group_by_id-id groups id g
        (sym (ap (λ b. if b then some h else group_by_id groups id) later) ∙ found)
]

-- An edit keeps the key that makes a group the administrators'.
pub admin_in-put :
    (groups : List Group) (now : Instant) (f : GroupUpdate) (id i : ℕ) (g : Group)
    → group_by_id groups id ≡ some g
    → admin_in (put_group (updated_group now f g) groups) i ≡ admin_in groups i
unfolding admin_in put_group updated_group
admin_in-put [] now f id i g found = refl
admin_in-put (h ∷ groups) now f id i g found = elim (Bool-cases (h.id == id)) [
  | inl here ↦
      subst
        (λ (k : Group).
          admin_in (put_group (updated_group now f k) (h ∷ groups)) i ≡ admin_in (h ∷ groups) i)
        (some_injective h g
          (sym (ap (λ b. if b then some h else group_by_id groups id) here) ∙ found))
        (rw (==_refl h.id) refl)
  | inr later ↦
      let found' = sym (ap (λ b. if b then some h else group_by_id groups id) later) ∙ found in
      ground
        (arith, later, group_by_id-id groups id g found', admin_in-put groups now f id i g found')
]

pub tables-authority :
    (ids : Ids) (db' : Roster) (i : ℕ) (b : Bool) (permissions : List String) (scope : Option Scope)
    → admin_in db'.groups i ≡ b
    → permissions_in i db'.group_permissions ≡ permissions
    → places_in ids i db'.group_scopes ≡ scope
    → group_authority ids db' i ≡ from_tables b permissions scope
tables-authority ids db' i b permissions scope e f g =
    group_authority-tables ids db' i
    ∙ (ap
          (λ t.
            from_tables t (permissions_in i db'.group_permissions)
              (places_in ids i db'.group_scopes))
          e
        ∙ ap₂ (from_tables b) f g)
