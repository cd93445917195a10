-- ===== src/Tests/Rooms.antt =====
-- Syncs with the directory: one that adopts a room, numbers another and takes a poste out of its
-- room, and others at the width of a room's name.
use Prim.Native.String.{◌++◌ as text_append}
use natimai_tiai.Prelude.{ℕ, true, ◌≡◌, refl, Option, none, some, String, List, [], ◌∷◌}
use natimai_tiai.Machine.{Machine, new_machine}
use natimai_tiai.Room.{Room}
use natimai_tiai.Room.Numbered.{numbered}
use natimai_tiai.Room.Outcome.{done, too_long, on_done, Ends}
use natimai_tiai.Room.Directory.{ad_ou, SyncResult, nothing_done, sync_from_directory}
use natimai_tiai.Room.Directory.Filed.{Synced, some_overlong, sync_from_directory-Synced}

abbrev room : ℕ → String → Option String → Room
room id name key = record {
  id = id;
  name = name;
  building_id = none;
  ad_key = key;
  location = none;
  maintenance_cycle_days = none;
  maintenance_owner_id = none;
}

abbrev rooms : List Room
rooms = room 1 "B12" none ∷ room 2 "A1" (some "OU=A1,OU=Nord") ∷ []

abbrev poste : ℕ → Option String → Option String → Machine
poste id ou_dn ou = record (new_machine id "x" 0) { ad_ou_dn = ou_dn; ad_ou = ou }

abbrev machines : List Machine
machines =
    poste 1 (some "OU=B12") (some "B12")
    ∷ poste 2 (some "OU=A1,OU=Sud") (some "A1")
    ∷ record (poste 3 none none) { room_id = some 2 }
    ∷ []

numbered_name : numbered "A1" 12 ≡ "A1 (12)"
unfolding numbered
numbered_name = refl

abbrev answered : List Room × List Machine × SyncResult → List Room × SyncResult
answered r = (r.0, r.2)

-- The rooms after the sync, and what it answers
synced :
    on_done answered (sync_from_directory 7 9 ad_ou rooms machines)
    ≡ done (
      room 1 "B12" (some "OU=B12")
          ∷ room 2 "A1" (some "OU=A1,OU=Nord")
          ∷ room 8 "A1 (2)" (some "OU=A1,OU=Sud")
          ∷ [],
      record { placed = 2; unplaced = 1; rooms_created = 1 },
    )
unfolding sync_from_directory numbered
synced = refl

sync_from_directory-Synced_example :
    Ends
      (Synced ad_ou rooms machines nothing_done)
      (some_overlong 7 ad_ou machines)
      (sync_from_directory 7 9 ad_ou rooms machines)
sync_from_directory-Synced_example = sync_from_directory-Synced 7 9 ad_ou rooms machines refl

-- A name of a hundred and one characters: the sync is refused.
abbrev hundred : String
hundred =
    "----------------------------------------------------------------------------------------------------"

abbrev described : Machine
described = poste 4 (some "OU=Atelier") (some (text_append hundred "!"))

too_wide : sync_from_directory 7 9 ad_ou rooms (described ∷ []) ≡ too_long
unfolding sync_from_directory
too_wide = refl

wide_enough : some_overlong 2 ad_ou (described ∷ []) ≡ true
unfolding numbered
wide_enough = refl

-- With a hundred, it is not.
fits_exactly :
    on_done answered
      (sync_from_directory 7 9 ad_ou [] (poste 4 (some "OU=Atelier") (some hundred) ∷ []))
    ≡ done (
      room 7 hundred (some "OU=Atelier") ∷ [],
      record { placed = 1; unplaced = 0; rooms_created = 1 },
    )
unfolding sync_from_directory
fits_exactly = refl
