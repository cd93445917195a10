-- ===== src/User/Groups/Writes.antt =====
-- What a group gives once its permissions or its places are replaced, and what the others give.
use natimai_tiai.Prelude.{
  ℕ, ◌≡◌, refl, ◌∙◌, ap, ap₂, Bool, true, false, not, Option, none, some, String, List, [], ◌∷◌,
  ◌++◌, map, select, string_eq, nat_eq, ◌==◌, arith, select-append,
}
use natimai_tiai.User.Scope.{Scope, is_empty}
use natimai_tiai.User.Groups.{
  Ids, GroupPermission, GroupScope, set_group_permissions, set_group_scope, scope_rows, from_rows,
  scope_of_rows,
}

-- A table with the rows of one key replaced
module _ {ℓ} {R : Type ℓ} (key : R → ℕ) where
  pub select-other :
      (i id : ℕ) (rows : List R)
      → (i == id) ≡ false
      → select (λ r. key r == i) (select (λ r. not (key r == id)) rows)
        ≡ select (λ r. key r == i) rows
  select-other i id [] ne = refl
  select-other i id (r ∷ rows) ne = ground (arith, select-other i id rows ne)

  select-gone :
      (id : ℕ) (rows : List R)
      → select (λ r. key r == id) (select (λ r. not (key r == id)) rows) ≡ []
  select-gone id [] = refl
  select-gone id (r ∷ rows) = ground (arith, select-gone id rows)

module _ {ℓ κ} {R : Type ℓ} {A : Type κ} (key : R → ℕ) (row : A → R) (id : ℕ)
    (keyed : (v : A) → key (row v) ≡ id) where
  select-rows : (vs : List A) → select (λ r. key r == id) (map row vs) ≡ map row vs
  select-rows [] = refl
  select-rows (v ∷ vs) = ground (arith, keyed v, select-rows vs)

  select-rows_other :
      (i : ℕ) (vs : List A) → (i == id) ≡ false → select (λ r. key r == i) (map row vs) ≡ []
  select-rows_other i [] ne = refl
  select-rows_other i (v ∷ vs) ne = ground (arith, keyed v, select-rows_other i vs ne)

  replaced_self :
      (rows : List R) (vs : List A)
      → select (λ r. key r == id) (select (λ r. not (key r == id)) rows ++ map row vs) ≡ map row vs
  replaced_self rows vs =
      select-append (λ r. key r == id) (select (λ r. not (key r == id)) rows) (map row vs)
      ∙ ap₂ ◌++◌ (select-gone key id rows) (select-rows vs)

  replaced-other :
      (i : ℕ) (rows : List R) (vs : List A)
      → (i == id) ≡ false
      → select (λ r. key r == i) (select (λ r. not (key r == id)) rows ++ map row vs)
        ≡ select (λ r. key r == i) rows
  replaced-other i rows vs ne =
      select-append (λ r. key r == i) (select (λ r. not (key r == id)) rows) (map row vs)
      ∙ ap₂ ◌++◌ (select-other key i id rows ne) (select-rows_other i vs ne)
      ∙ append-nil (select (λ r. key r == i) rows)
    where
      append-nil : (xs : List R) → xs ++ [] ≡ xs
      append-nil [] = refl
      append-nil (x ∷ xs) = ap (λ ys. x ∷ ys) (append-nil xs)

-- The permissions that the table gives a group
abbrev pub permissions_in : ℕ → List GroupPermission → List String
permissions_in i rows =
    map (λ (p : GroupPermission). p.permission)
      (select (λ (p : GroupPermission). p.group_id == i) rows)

permissions_of :
    (id : ℕ) (permissions : List String)
    → map
        (λ (p : GroupPermission). p.permission)
        (map (λ permission. record { group_id = id; permission = permission }) permissions)
      ≡ permissions
permissions_of id [] = refl
permissions_of id (q ∷ permissions) = ap (λ ys. q ∷ ys) (permissions_of id permissions)

pub set_group_permissions_self :
    (id : ℕ) (permissions : List String) (rows : List GroupPermission)
    → permissions_in id (set_group_permissions id permissions rows) ≡ permissions
unfolding set_group_permissions
set_group_permissions_self id permissions rows =
    ap (map (λ (p : GroupPermission). p.permission)) (
      replaced_self (λ (p : GroupPermission). p.group_id)
        (λ permission. record { group_id = id; permission = permission }) id (λ _. refl) rows
        permissions)
    ∙ permissions_of id permissions

pub set_group_permissions-other :
    (i id : ℕ) (permissions : List String) (rows : List GroupPermission)
    → (i == id) ≡ false
    → permissions_in i (set_group_permissions id permissions rows) ≡ permissions_in i rows
unfolding set_group_permissions
set_group_permissions-other i id permissions rows ne =
    ap (map (λ (p : GroupPermission). p.permission)) (
      replaced-other (λ (p : GroupPermission). p.group_id)
        (λ permission. record { group_id = id; permission = permission }) id (λ _. refl) i rows
        permissions ne)

module _ (ids : Ids) (ids_read : (i : ℕ) → ids.parse_id (ids.print_id i) ≡ some i) where
  -- The scope that is read back is the one that was stored.
  pub from_rows-scope_rows : (s : Scope) → from_rows ids (scope_rows ids s) ≡ s
  unfolding from_rows scope_rows
  from_rows-scope_rows s = sites s.locations
    where
      rooms_read :
          (is : List ℕ)
          → from_rows ids (map (λ i. ("room", ids.print_id i)) is)
            ≡ record { locations = []; buildings = []; rooms = is }
      rooms_read [] = refl
      rooms_read (i ∷ is) =
          rw (ids_read i) (ap (λ (t : Scope). record t { rooms = i ∷ t.rooms }) (rooms_read is))

      halls :
          (is : List ℕ)
          → from_rows ids (
              map (λ i. ("building", ids.print_id i)) is
              ++ map (λ i. ("room", ids.print_id i)) s.rooms)
            ≡ record { locations = []; buildings = is; rooms = s.rooms }
      halls [] = rooms_read s.rooms
      halls (i ∷ is) =
          rw (ids_read i) (ap (λ (t : Scope). record t { buildings = i ∷ t.buildings }) (halls is))

      sites :
          (vs : List String)
          → from_rows ids (
              map (λ v. ("location", v)) vs
              ++ (map (λ i. ("building", ids.print_id i)) s.buildings
                  ++ map (λ i. ("room", ids.print_id i)) s.rooms))
            ≡ record { locations = vs; buildings = s.buildings; rooms = s.rooms }
      sites [] = halls s.buildings
      sites (v ∷ vs) = ap (λ (t : Scope). record t { locations = v ∷ t.locations }) (sites vs)

  -- A scope that confines
  abbrev pub confines : Option Scope → Bool
  confines none = true
  confines (some s) = not (is_empty s)

  abbrev row_of : ℕ → String × String → GroupScope
  row_of id kv = record { group_id = id; kind = kv.0; value = kv.1 }

  pairs_of :
      (id : ℕ) (xs : List (String × String))
      → map (λ (r : GroupScope). (r.kind, r.value)) (map (row_of id) xs) ≡ xs
  pairs_of id [] = refl
  pairs_of id (x ∷ xs) = ap (λ ys. x ∷ ys) (pairs_of id xs)

  scope_of_rows-cons :
      (id : ℕ) (x : String × String) (xs : List (String × String))
      → scope_of_rows ids (map (row_of id) (x ∷ xs)) ≡ some (from_rows ids (x ∷ xs))
  unfolding scope_of_rows
  scope_of_rows-cons id x xs = ap (λ ys. some (from_rows ids ys)) (pairs_of id (x ∷ xs))

  stored :
      (id : ℕ) (ls : List String) (bs rs : List ℕ)
      → not (is_empty (record { locations = ls; buildings = bs; rooms = rs })) ≡ true
      → scope_of_rows ids
          (map (row_of id) (scope_rows ids (record { locations = ls; buildings = bs; rooms = rs })))
        ≡ some
            (from_rows ids (scope_rows ids (record { locations = ls; buildings = bs; rooms = rs })))
  unfolding scope_rows is_empty
  stored id (v ∷ ls) bs rs h = scope_of_rows-cons id _ _
  stored id [] (i ∷ bs) rs h = scope_of_rows-cons id _ _
  stored id [] [] (i ∷ rs) h = scope_of_rows-cons id _ _
  stored id [] [] [] h = cc

  pub set_group_scope_self :
      (id : ℕ) (scope : Option Scope) (rows : List GroupScope)
      → confines scope ≡ true
      → scope_of_rows ids
          (select (λ (r : GroupScope). r.group_id == id) (set_group_scope ids id scope rows))
        ≡ scope
  unfolding set_group_scope
  set_group_scope_self id none rows h =
      ap (scope_of_rows ids)
        (replaced_self (λ (r : GroupScope). r.group_id) (row_of id) id (λ _. refl) rows [])
      ∙ unfold scope_of_rows in refl
  set_group_scope_self id (some s) rows h =
      ap (scope_of_rows ids) (
        replaced_self (λ (r : GroupScope). r.group_id) (row_of id) id (λ _. refl) rows
          (scope_rows ids s))
      ∙ (stored id s.locations s.buildings s.rooms h ∙ ap some (from_rows-scope_rows s))

  pub set_group_scope-other :
      (i id : ℕ) (scope : Option Scope) (rows : List GroupScope)
      → (i == id) ≡ false
      → select (λ (r : GroupScope). r.group_id == i) (set_group_scope ids id scope rows)
        ≡ select (λ (r : GroupScope). r.group_id == i) rows
  unfolding set_group_scope
  set_group_scope-other i id none rows ne =
      replaced-other (λ (r : GroupScope). r.group_id) (row_of id) id (λ _. refl) i rows [] ne
  set_group_scope-other i id (some s) rows ne =
      replaced-other (λ (r : GroupScope). r.group_id) (row_of id) id (λ _. refl) i rows
        (scope_rows ids s) ne
