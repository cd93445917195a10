-- ===== src/Room/Directory.antt =====
-- backend/app/features/room/crud.py, the placement of postes by the directory: what a poste is filed
-- by, the room of a key, found, adopted or made, a poste's place and the sync of every poste; and the
-- block of `heartbeat` in backend/app/api/routes/agent.py that files a poste. The identifiers of the
-- rooms that are made are the server's.
pub mod Names
pub mod Keys
pub mod Given
pub mod Filed
use natimai_tiai.Prelude.{
  ℕ, zero, suc, ◌+◌, Bool, true, false, not, ◌&&◌, Option, none, some, String, List, [], ◌∷◌, ◌++◌,
  map, length, is_null, is_not_null, eq_value, option_eq, string_eq, nat_eq, ◌==◌, if◌then◌else◌,
  ltb, ◌||◌,
}
use natimai_tiai.Prelude.Time.{Instant}
use natimai_tiai.Machine.{Machine}
use natimai_tiai.Command.Result.{truthy}
use natimai_tiai.Room.{Room}
use natimai_tiai.Room.Numbered.{numbered}
use natimai_tiai.Room.Outcome.{Outcome, done, too_long, out_of_fuel, on_done, ◌>>=◌}
use natimai_tiai.Package.Names.{codes}

-- ROOM_SOURCE
pub data RoomSource : Type 0 where
  manual ad_ou ad_location : RoomSource

abbrev pub is_manual : RoomSource → Bool
is_manual manual = true
is_manual ad_ou = false
is_manual ad_location = false

abbrev both : Option String → Option String → Option (String × String)
both none name = none
both (some key) none = none
both (some key) (some name) =
    if key == "" then none else if name == "" then none else some (key, name)

-- `directory_key`: the key of the room, and the name to give it
abbrev pub directory_key : Machine → RoomSource → Option (String × String)
directory_key m manual = none
directory_key m ad_ou = both m.ad_ou_dn m.ad_ou
directory_key m ad_location = both m.ad_location m.ad_location

-- `Room.ad_key == key`
abbrev pub room_by_key : List Room → String → Option Room
room_by_key [] key = none
room_by_key (r ∷ rooms) key = if eq_value r.ad_key key then some r else room_by_key rooms key

-- `room_by_name`, of a room in no building
abbrev pub is_loose : String → Room → Bool
is_loose name r = r.name == name && is_null r.building_id

abbrev pub loose_room : List Room → String → Option Room
loose_room [] name = none
loose_room (r ∷ rooms) name = if is_loose name r then some r else loose_room rooms name

-- The row that was found, written: the table, where the room of this name has no key
pub adopt : String → String → List Room → Option (List Room × Room)
adopt key name [] = none
adopt key name (r ∷ rooms) =
    if is_loose name r
    then (if is_null r.ad_key
        then some (record r { ad_key = some key } ∷ rooms, record r { ad_key = some key })
        else none)
    else elim (adopt key name rooms) [ none ↦ none | some (rooms', room) ↦ some (r ∷ rooms', room) ]

-- The loop on the names: none where the fuel is out
pub free_name : ℕ → List Room → String → String → ℕ → Option String
free_name zero rooms name candidate n = none
free_name (suc fuel) rooms name candidate n =
    let rest = free_name fuel rooms name (numbered name n) (suc n) in
    if is_null (loose_room rooms candidate) then some candidate else rest

abbrev pub new_room : ℕ → String → String → Room
new_room id name key = record {
  id = id;
  name = name;
  building_id = none;
  ad_key = some key;
  location = none;
  maintenance_cycle_days = none;
  maintenance_owner_id = none;
}

-- The widths of the columns `rooms.name` and `rooms.ad_key`
abbrev pub is_long : String → Bool
is_long name = ltb 100 (length (codes name))

abbrev pub is_long_key : String → Bool
is_long_key key = ltb 500 (length (codes key))

-- The INSERT of a room, refused where a text is too wide
abbrev pub added : ℕ → List Room → String → String → Outcome (List Room × Room × Bool)
added fresh rooms key candidate =
    let room = new_room fresh candidate key in
    if is_long candidate || is_long_key key then too_long else done (rooms ++ room ∷ [], room, true)

-- The room that bears the key, or else the one that was given it, or else a new one
pub found_or_made :
    ℕ
    → List Room
    → String
    → String
    → Option Room
    → Option (List Room × Room)
    → Outcome (List Room × Room × Bool)
unfolding free_name
found_or_made fresh rooms key name (some room) adopted = done (rooms, room, false)
found_or_made fresh rooms key name none (some (rooms', room)) =
    if is_long_key key then too_long else done (rooms', room, false)
found_or_made fresh rooms key name none none =
    elim (free_name (suc (suc (length rooms))) rooms name name 2) [
      | none ↦ out_of_fuel
      | some candidate ↦ added fresh rooms key candidate
    ]

-- `room_for_key`: the table, the room and whether it was made
pub room_for_key : ℕ → List Room → String → String → Outcome (List Room × Room × Bool)
unfolding adopt found_or_made
room_for_key fresh rooms key name =
    found_or_made fresh rooms key name (room_by_key rooms key) (adopt key name rooms)

-- A poste in the room of its key
abbrev pub moved_to_room : Instant → Machine → List Room × Room × Bool → List Room × Machine × Bool
moved_to_room now m (rooms, room, created) = (
  rooms,
  if eq_value m.room_id room.id then m else record m { room_id = some room.id; updated_at = now },
  created,
)

abbrev pub moved_from_room : Instant → Machine → Machine
moved_from_room now m =
    if is_not_null m.room_id then record m { room_id = none; updated_at = now } else m

-- A poste under the key that the directory gave, if it gave one
pub place_by :
    ℕ
    → Instant
    → List Room
    → Machine
    → Option (String × String)
    → Outcome (List Room × Machine × Bool)
unfolding room_for_key
place_by fresh now rooms m none = done (rooms, moved_from_room now m, false)
place_by fresh now rooms m (some (key, name)) =
    on_done (moved_to_room now m) (room_for_key fresh rooms key name)

-- `place_from_directory`: the table, the poste and whether a room was made
pub place_from_directory :
    ℕ → Instant → RoomSource → List Room → Machine → Outcome (List Room × Machine × Bool)
unfolding place_by
place_from_directory fresh now source rooms m =
    if is_manual source
    then done (rooms, m, false)
    else place_by fresh now rooms m (directory_key m source)

pub record SyncResult : Type 0 where
  pub placed : ℕ
  pub unplaced : ℕ
  pub rooms_created : ℕ

-- One round of `sync_from_directory` on the counts
abbrev pub tallied : RoomSource → Machine → Bool → SyncResult → SyncResult
tallied source m created r = record {
  placed = if is_null (directory_key m source) then r.placed else suc r.placed;
  unplaced =
      if is_null (directory_key m source) && is_not_null m.room_id
      then suc r.unplaced
      else r.unplaced;
  rooms_created = if created then suc r.rooms_created else r.rooms_created;
}

-- The loop of `sync_from_directory`: the rooms, the postes and the counts
pub sync_postes :
    ℕ
    → Instant
    → RoomSource
    → List Room
    → List Machine
    → SyncResult
    → Outcome (List Room × List Machine × SyncResult)
unfolding place_from_directory
sync_postes fresh now source rooms [] result = done (rooms, [], result)
sync_postes fresh now source rooms (m ∷ machines) result = do
  (rooms', m', created) ← place_from_directory fresh now source rooms m
  (rooms'', machines', result') ←
      sync_postes (suc fresh) now source rooms' machines (tallied source m created result)
  done (rooms'', m' ∷ machines', result')

abbrev pub nothing_done : SyncResult
nothing_done = record { placed = 0; unplaced = 0; rooms_created = 0 }

unfoldable pub sync_from_directory :
    ℕ
    → Instant
    → RoomSource
    → List Room
    → List Machine
    → Outcome (List Room × List Machine × SyncResult)
unfolding sync_postes
sync_from_directory fresh now source rooms machines =
    if is_manual source
    then done (rooms, machines, nothing_done)
    else sync_postes fresh now source rooms machines nothing_done

-- What the agent read of the directory, bounded
pub record DirectoryReport : Type 0 where
  pub distinguished_name : Option String
  pub ou : Option String
  pub ou_dn : Option String
  pub ad_location : Option String

-- The block of `heartbeat` on the directory
pub with_directory :
    ℕ
    → Instant
    → RoomSource
    → Option DirectoryReport
    → List Room
    → Machine
    → Outcome (List Room × Machine × Bool)
unfolding place_from_directory
with_directory fresh now source none rooms m = done (rooms, m, false)
with_directory fresh now source (some d) rooms m =
    place_from_directory fresh now source rooms (record m {
      ad_distinguished_name = d.distinguished_name;
      ad_ou = d.ou;
      ad_ou_dn = d.ou_dn;
      ad_location = d.ad_location;
    })
