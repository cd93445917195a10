-- ===== src/User/Scope.antt =====
-- backend/app/features/user/scope.py: the sites, buildings and rooms that an account is confined to.
-- A frozenset is a list that only `contains` reads; `or_(*conditions)` is `or_all`; the predicates
-- on rows are functions of the row and of the tables that their subqueries read.
pub mod Visibility
pub mod Widening
use natimai_tiai.Prelude.{
  ℕ, Bool, true, false, ◌&&◌, ◌||◌, not, Option, none, some, String, List, [], ◌∷◌, ◌++◌, map, any,
  subset, contains, coalesce, in_values, eq_value, or_all, select, nat_eq, string_eq, if◌then◌else◌,
}
use natimai_tiai.Machine.{Machine}
use natimai_tiai.Room.{Building, Room, building_by_id}

pub record Scope : Type 0 where
  pub locations : List String
  pub buildings : List ℕ
  pub rooms : List ℕ

-- `Scope()`
abbrev pub empty : Scope
empty = record { locations = []; buildings = []; rooms = [] }

abbrev pub nonempty {ℓ} : {A : Type ℓ} → List A → Bool
nonempty [] = false
nonempty (x ∷ xs) = true

-- `Scope.is_empty`
unfoldable pub is_empty : Scope → Bool
is_empty s = not (nonempty s.locations || nonempty s.buildings || nonempty s.rooms)

-- `Scope.__or__`
pub join : Scope → Scope → Scope
join s t = record {
  locations = s.locations ++ t.locations;
  buildings = s.buildings ++ t.buildings;
  rooms = s.rooms ++ t.rooms;
}

-- `Scope.covers`
unfoldable pub covers : Scope → Scope → Bool
covers self other =
    subset other.locations self.locations
    && (subset other.buildings self.buildings && subset other.rooms self.rooms)

-- The loop of `union`, from the scope gathered so far; `None` returns at once.
pub union_from : Scope → List (Option Scope) → Option Scope
union_from out [] = some out
union_from out (none ∷ scopes) = none
union_from out (some s ∷ scopes) = union_from (join out s) scopes

unfoldable pub union : List (Option Scope) → Option Scope
unfolding union_from join
union scopes = union_from empty scopes

unfoldable pub wider : Option Scope → Option Scope → Bool
wider none target = false
wider (some actor) none = true
wider (some actor) (some target) = not (covers actor target)

-- The tables that the predicates read.
pub record Places : Type 0 where
  pub buildings : List Building
  pub rooms : List Room

-- The site of a room: `coalesce(Building.location, Room.location)` over the outer join.
unfoldable pub site_of : Places → Room → Option String
site_of p r =
    coalesce
      (elim r.building_id [
        | none ↦ none
        | some i ↦ elim (building_by_id p.buildings i) [ none ↦ none | some b ↦ b.location ]
      ])
      r.location

-- The WHERE of `_room_ids_in`, on one room.
pub room_conditions : Places → Scope → Room → List Bool
unfolding site_of
room_conditions p s r =
    (if nonempty s.locations then in_values (site_of p r) s.locations ∷ [] else [])
    ++ ((if nonempty s.buildings then in_values r.building_id s.buildings ∷ [] else [])
        ++ (if nonempty s.rooms then contains s.rooms r.id ∷ [] else []))

-- `_room_ids_in`
pub room_ids_in : Places → Scope → List ℕ
unfolding room_conditions
room_ids_in p s = map (λ r. r.id) (select (λ r. or_all (room_conditions p s r)) p.rooms)

-- `machine_clause` of a scope, on one machine
pub machine_conditions : Places → Scope → Machine → List Bool
unfolding room_ids_in is_empty
machine_conditions p s m =
    (if nonempty s.locations then in_values m.location s.locations ∷ [] else [])
    ++ (if not (is_empty s) then in_values m.room_id (room_ids_in p s) ∷ [] else [])

-- `machine_clause`, and `restrict`: an absent clause restricts nothing. It is what `machine_visible`
-- answers for the row that has the machine's identifier.
unfoldable pub machine_visible : Places → Option Scope → Machine → Bool
unfolding machine_conditions
machine_visible p none m = true
machine_visible p (some s) m = or_all (machine_conditions p s m)

-- `room_clause`
pub room_visible : Places → Option Scope → Room → Bool
unfolding room_ids_in
room_visible p none r = true
room_visible p (some s) r = contains (room_ids_in p s) r.id

-- `building_clause`
pub building_visible : Places → Option Scope → Building → Bool
building_visible p none b = true
building_visible p (some s) b = or_all (
    (if nonempty s.locations then in_values b.location s.locations ∷ [] else [])
    ++ ((if nonempty s.buildings then contains s.buildings b.id ∷ [] else [])
        ++ (if nonempty s.rooms
            then any (λ (r : Room). contains s.rooms r.id && eq_value r.building_id b.id) p.rooms
              ∷ []
            else [])))
