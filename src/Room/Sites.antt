-- ===== src/Room/Sites.antt =====
-- backend/app/features/room/crud.py, the site of a room, with the writes that decide it in
-- backend/app/api/routes/rooms.py: a room made, a room edited, a building deleted. A name that is
-- taken is refused before those writes and is left out, and so is the placing of postes by hand.
pub mod Kept
use natimai_tiai.Prelude.{
  ℕ, Bool, true, false, not, ◌&&◌, ◌||◌, Option, none, some, String, List, [], ◌∷◌, map, select,
  is_null, is_not_null, coalesce_to, eq_value, string_eq, nat_eq, ◌==◌, if◌then◌else◌,
}
use natimai_tiai.Room.{Building, Room, building_by_id}
use natimai_tiai.Command.Result.{truthy}

pub effective_location : Option Room → Option Building → Option String
effective_location none building = none
effective_location (some room) none = room.location
effective_location (some room) (some building) = building.location

pub location_mismatch : Option String → Option String → Bool
location_mismatch machine_location room_location =
    truthy machine_location
    && (truthy room_location && not (option_same machine_location room_location))
  where
    option_same : Option String → Option String → Bool
    option_same none none = true
    option_same (some a) (some b) = a == b
    option_same none (some b) = false
    option_same (some a) none = false

-- The building of a room over the outer join
abbrev pub building_of : List Building → Room → Option Building
building_of buildings r = elim r.building_id [ none ↦ none | some i ↦ building_by_id buildings i ]

-- `Placement.location`
abbrev pub site : List Building → Room → Option String
site buildings r = effective_location (some r) (building_of buildings r)

-- The row that `create_room` stores, from cleaned texts
pub created_room : ℕ → String → Option ℕ → Option String → Room
created_room id name building_id location = record {
  id = id;
  name = name;
  building_id = building_id;
  ad_key = none;
  location = if is_null building_id then location else none;
  maintenance_cycle_days = none;
  maintenance_owner_id = none;
}

-- The fields of an edit, cleaned: no value for one that is not sent
pub record RoomUpdate : Type 0 where
  pub name : Option String
  pub building_id : Option (Option ℕ)
  pub location : Option (Option String)

-- The row that `update_room` stores
pub updated_room : RoomUpdate → Room → Room
updated_room u r =
    let building_id = coalesce_to u.building_id r.building_id in
    record r {
      name = coalesce_to u.name r.name;
      building_id = building_id;
      location = if is_not_null building_id then none else coalesce_to u.location r.location;
    }

-- `detach_building`, on a row
pub detached_room : Building → Room → Room
detached_room b r =
    if eq_value r.building_id b.id && is_null r.location
    then record r { location = b.location }
    else r

-- ON DELETE SET NULL, on a row
pub unlinked_room : Building → Room → Room
unlinked_room b r = if eq_value r.building_id b.id then record r { building_id = none } else r

-- `delete_building`: the buildings and the rooms that stay
pub delete_building : Building → List Building → List Room → List Building × List Room
delete_building b buildings rooms = (
  select (λ (x : Building). not (x.id == b.id)) buildings,
  map (unlinked_room b) (map (detached_room b) rooms),
)
