-- ===== src/Room/Directory/Filed.antt =====
-- Where the directory files the postes: one by one, and all of them in a sync.
use natimai_tiai.Prelude.{
  ℕ, suc, ◌+◌, ◌≡◌, refl, ap, ap₂, sym, subst, Bool, true, false, not, Option, none, some, String,
  List, [], ◌∷◌, map, count_where, is_null, is_not_null, eq_value, nat_eq, ==_sound, if_elim, All,
  arith, any, inl, inr, length, ◌≤◌,
}
use natimai_tiai.Prelude.Time.{Instant}
use natimai_tiai.Machine.{Machine}
use natimai_tiai.Room.{Room}
use natimai_tiai.Room.Directory.{
  RoomSource, is_manual, moved_to_room, moved_from_room, tallied, nothing_done, directory_key,
  place_by, place_from_directory, SyncResult, sync_postes, sync_from_directory, room_for_key,
}
use natimai_tiai.Room.Outcome.{Ends, Ends-on_done, bind-done, refused}
use natimai_tiai.Room.Directory.Keys.{id_of, IsSingle, Keeps}
use natimai_tiai.Room.Directory.Given.{is_overlong, room_for_key-Files}

-- A poste is in the room that bears its key, and in none where the directory gave it no key.
abbrev pub FiledBy : List Room → Machine → Option (String × String) → Type 0
FiledBy rooms m none = m.room_id ≡ none
FiledBy rooms m (some (key, name)) = (i : ℕ) × (id_of rooms key ≡ some i) × (m.room_id ≡ some i)

abbrev pub IsFiled : RoomSource → List Room → Machine → Type 0
IsFiled source rooms m = FiledBy rooms m (directory_key m source)

-- A poste but for its room and the time of its update
abbrev pub but_place : Machine → Machine
but_place m = record m { room_id = none; updated_at = 0 }

FiledBy-mono :
    (rooms rooms' : List Room) (m : Machine) (key : Option (String × String))
    → Keeps rooms rooms'
    → FiledBy rooms m key
    → FiledBy rooms' m key
FiledBy-mono rooms rooms' m none keeps f = f
FiledBy-mono rooms rooms' m (some (key, name)) keeps (i, e, f) = (i, keeps key i e, f)

is_there : (o : Option ℕ) (i : ℕ) → eq_value o i ≡ true → o ≡ some i
is_there none i e = cc
is_there (some j) i e = ap some (==_sound j i e)

-- What a placement leaves: the poste filed, the rooms kept, and the rest of the poste as it was
abbrev pub Settled :
    Option (String × String) → List Room → Machine → List Room × Machine × Bool → Type 0
Settled key rooms m (rooms', m', created) =
    FiledBy rooms' m' key
    × Keeps rooms rooms'
    × (IsSingle rooms → IsSingle rooms')
    × (but_place m' ≡ but_place m)
    × (length rooms' ≤ suc (length rooms))

-- A poste's texts are too long for the room that the directory files it by.
abbrev pub overlong : ℕ → Option (String × String) → Bool
overlong last none = false
overlong last (some (key, name)) = is_overlong last key name

place_by-Settled :
    (fresh : ℕ) (now : Instant) (rooms : List Room) (m : Machine) (last : ℕ)
    (key : Option (String × String))
    → length rooms + 2 ≤ last
    → Ends (Settled key rooms m) (overlong last key) (place_by fresh now rooms m key)
unfolding place_by
place_by-Settled fresh now rooms m last none le = inl (
  (rooms, moved_from_room now m, false),
  refl,
  (
    if_elim (λ (x : Machine). x.room_id ≡ none) (is_not_null m.room_id) _ m (λ _. refl)
        (λ e. nowhere m.room_id e),
    (λ k i e. e),
    (λ single. single),
    if_elim (λ (x : Machine). but_place x ≡ but_place m) (is_not_null m.room_id) _ m (λ _. refl)
        (λ _. refl),
    omega arith,
  ),
)
  where
    nowhere : (o : Option ℕ) → is_not_null o ≡ false → o ≡ none
    nowhere none e = refl
    nowhere (some i) e = cc
place_by-Settled fresh now rooms m last (some (key, name)) le =
    Ends-on_done (moved_to_room now m) (room_for_key fresh rooms key name)
      (λ r files. (
        (
          r.1.id,
          files.0,
          if_elim (λ (x : Machine). x.room_id ≡ some r.1.id) (eq_value m.room_id r.1.id) m _
              (λ e. is_there m.room_id r.1.id e) (λ _. refl),
        ),
        files.1,
        files.2,
        if_elim (λ (x : Machine). but_place x ≡ but_place m) (eq_value m.room_id r.1.id) m _
            (λ _. refl) (λ _. refl),
        files.3,
      ))
      (room_for_key-Files fresh rooms key name last le)

place_from_directory-Settled :
    (fresh : ℕ) (now : Instant) (source : RoomSource) (rooms : List Room) (m : Machine) (last : ℕ)
    → is_manual source ≡ false
    → length rooms + 2 ≤ last
    → Ends
        (Settled (directory_key m source) rooms m)
        (overlong last (directory_key m source))
        (place_from_directory fresh now source rooms m)
unfolding place_from_directory
place_from_directory-Settled fresh now source rooms m last directed le =
    rw directed (place_by-Settled fresh now rooms m last (directory_key m source) le)

-- The postes that the directory files
abbrev pub keyed : RoomSource → Machine → Bool
keyed source m = not (is_null (directory_key m source))

abbrev pub Synced :
    RoomSource
    → List Room
    → List Machine
    → SyncResult
    → List Room × List Machine × SyncResult
    → Type 0
Synced source rooms machines before (rooms', machines', result) =
    All (IsFiled source rooms') machines'
    × Keeps rooms rooms'
    × (IsSingle rooms → IsSingle rooms')
    × (map but_place machines' ≡ map but_place machines)
    × (result.placed ≡ before.placed + count_where (keyed source) machines)

-- The first of the postes was filed and the others too.
both_filed :
    (source : RoomSource) (rooms : List Room) (m : Machine) (machines : List Machine)
    (before : SyncResult) (p : List Room × Machine × Bool)
    (r : List Room × List Machine × SyncResult)
    → Settled (directory_key m source) rooms m p
    → Synced source p.0 machines (tallied source m p.2 before) r
    → Synced source rooms (m ∷ machines) before (r.0, p.1 ∷ r.1, r.2)
both_filed source rooms m machines before (rooms', m', created) r
      (filed, keeps, single, same, longer) (filed', keeps', single', same', placed) =
    (
      (
        subst (FiledBy r.0 m') (ap (λ x. directory_key x source) (sym same))
            (FiledBy-mono rooms' r.0 m' (directory_key m source) keeps' filed),
        filed',
      ),
      (λ k i e. keeps' k i (keeps k i e)),
      (λ s. single' (single s)),
      ap₂ (λ x xs. x ∷ xs) same same',
      ground (arith, placed),
    )

-- Some poste's texts are too long for its room.
abbrev pub some_overlong : ℕ → RoomSource → List Machine → Bool
some_overlong last source machines = any (λ m. overlong last (directory_key m source)) machines

sync_postes-Synced :
    (fresh : ℕ) (now : Instant) (source : RoomSource) (rooms : List Room) (machines : List Machine)
    (before : SyncResult) (last : ℕ)
    → is_manual source ≡ false
    → length rooms + length machines + 2 ≤ last
    → Ends
        (Synced source rooms machines before)
        (some_overlong last source machines)
        (sync_postes fresh now source rooms machines before)
unfolding sync_postes
sync_postes-Synced fresh now source rooms [] before last directed le =
    inl ((rooms, [], before), refl, (tt, (λ k i e. e), (λ single. single), refl, omega arith))
sync_postes-Synced fresh now source rooms (m ∷ machines) before last directed le =
    elim (place_from_directory-Settled fresh now source rooms m last directed (omega (arith, le))) [
      | inl (p, found, settled) ↦
          elim (sync_postes-Synced (suc fresh) now source p.0 machines (tallied source m p.2 before)
            last directed (omega (arith, le, settled.4))) [
              | inl (r, more, synced) ↦ inl (
                (r.0, p.1 ∷ r.1, r.2),
                bind-done _ _ found (bind-done _ _ more refl),
                both_filed source rooms m machines before p r settled synced,
              )
              | inr (more, long) ↦
                  inr (bind-done _ _ found (refused _ _ more), ground (arith, long))
            ]
      | inr (refusal, long) ↦ inr (refused _ _ refusal, ground (arith, long))
    ]

-- In a mode of the directory, a sync of the postes ends. If it is not refused, every poste is then in
-- the room that bears its key, or in none where the directory gave it no key; the rooms that bore a
-- key bear it still; where no two rooms in no building shared a name and no two rooms a key, none do;
-- the postes are as they were but for their rooms and the times of their updates; and the count of
-- the postes placed is that of the postes that have a key. It is refused only where a poste has a key
-- of more than 500 characters, or a name that is longer than 100, by itself or with a number behind
-- it that is at most the count of the rooms and the postes and two.
pub sync_from_directory-Synced :
    (fresh : ℕ) (now : Instant) (source : RoomSource) (rooms : List Room) (machines : List Machine)
    → is_manual source ≡ false
    → Ends
        (Synced source rooms machines nothing_done)
        (some_overlong (length rooms + length machines + 2) source machines)
        (sync_from_directory fresh now source rooms machines)
unfolding sync_from_directory
sync_from_directory-Synced fresh now source rooms machines directed = rw directed (
    sync_postes-Synced fresh now source rooms machines nothing_done
      (length rooms + length machines + 2) directed (omega arith))
