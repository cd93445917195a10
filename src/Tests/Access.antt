-- ===== src/Tests/Access.antt =====
-- Two sites, an account confined to one room of the first.
use natimai_tiai.Prelude.{◌≡◌, refl, true, false, Option, none, some, List, [], ◌∷◌, any, all, map}
use natimai_tiai.Room.{Building, Room, building_by_id}
use natimai_tiai.Room.Sites.{site, created_room, RoomUpdate, updated_room, delete_building}
use natimai_tiai.Room.Sites.Kept.{is_placed, sites_kept}
use natimai_tiai.Machine.{Machine, new_machine}
use natimai_tiai.User.Scope
use natimai_tiai.User.Scope.{Scope, Places, machine_visible, wider, covers}
use natimai_tiai.User.Scope.Visibility.{machine_visible-union}

abbrev places : Places
places = record {
  buildings = record { id = 1; name = "A"; location = some "Nord" } ∷ [];
  rooms =
      record {
        id = 10;
        name = "101";
        building_id = some 1;
        ad_key = none;
        location = none;
        maintenance_cycle_days = none;
        maintenance_owner_id = none;
      }
      ∷ [];
}

abbrev north : Scope
north = record { locations = "Nord" ∷ []; buildings = []; rooms = 10 ∷ [] }

abbrev one_room : Scope
one_room = record { locations = []; buildings = []; rooms = 10 ∷ [] }

abbrev poste : Machine
poste = record (new_machine 7 "a-poste" 0) { room_id = some 10 }

abbrev scopes : List (Option Scope)
scopes = some north ∷ some one_room ∷ []

machine_visible-union_example :
    machine_visible places (Scope.union scopes) poste
    ≡ any (λ s. machine_visible places s poste) scopes
machine_visible-union_example = machine_visible-union places scopes poste

not_wider : wider (some north) (some one_room) ≡ false
unfolding wider covers
not_wider = refl

seen : machine_visible places (some one_room) poste ≡ true
unfolding machine_visible
seen = refl

abbrev b12 : Building
b12 = record { id = 3; name = "B"; location = some "North" }

abbrev lab : Room
lab = record {
  id = 5;
  name = "12";
  building_id = some 3;
  ad_key = none;
  location = none;
  maintenance_cycle_days = none;
  maintenance_owner_id = none;
}

b12_found : building_by_id (b12 ∷ []) 3 ≡ some b12
b12_found = refl

abbrev moved_in : RoomUpdate
moved_in = record { name = none; building_id = some (some 3); location = none }

sites_kept_example :
    (is_placed (created_room 6 "13" (some 3) (some "Sud")) ≡ true)
    × (is_placed (updated_room moved_in lab) ≡ true)
    × (map
          (site (delete_building b12 (b12 ∷ []) (lab ∷ [])).0)
          (delete_building b12 (b12 ∷ []) (lab ∷ [])).1
        ≡ map (site (b12 ∷ [])) (lab ∷ []))
    × (all is_placed (delete_building b12 (b12 ∷ []) (lab ∷ [])).1 ≡ true)
    × (map (Scope.site_of (record { buildings = b12 ∷ []; rooms = lab ∷ [] })) (lab ∷ [])
        ≡ map (site (b12 ∷ [])) (lab ∷ []))
sites_kept_example =
    sites_kept b12 (b12 ∷ []) (lab ∷ []) 6 "13" (some 3) (some "Sud") moved_in lab b12_found refl
