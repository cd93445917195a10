-- ===== src/Room/Sites/Kept.antt =====
-- The sites of the rooms through the writes, and read in SQL.
use natimai_tiai.Prelude.{
  ℕ, ◌≡◌, refl, arith, Bool, true, false, not, ◌&&◌, ◌||◌, Option, none, some, String, List, [],
  ◌∷◌, map, select, all, is_null, string_eq, nat_eq, ◌==◌, ==_sound, Bool-cases, and_true, coalesce,
  inl, inr, ap, ap₂, sym, ◌∙◌,
}
use natimai_tiai.Room.{Building, Room, building_by_id}
use natimai_tiai.User.Scope.{site_of}
use natimai_tiai.Room.Sites.{
  effective_location, site, created_room, RoomUpdate, updated_room, detached_room, unlinked_room,
  delete_building,
}

-- A room in a building has no site of its own.
abbrev pub is_placed : Room → Bool
is_placed r = is_null r.building_id || is_null r.location

-- A room made or edited is one.
written_placed :
    (id : ℕ) (name : String) (building_id : Option ℕ) (location : Option String) (u : RoomUpdate)
    (r : Room)
    → (is_placed (created_room id name building_id location) ≡ true)
      × (is_placed (updated_room u r) ≡ true)
unfolding created_room updated_room
written_placed id name building_id location u r = (ground arith, ground arith)

found-removed :
    (b : Building) (buildings : List Building) (i : ℕ)
    → (i == b.id) ≡ false
    → building_by_id (select (λ (x : Building). not (x.id == b.id)) buildings) i
      ≡ building_by_id buildings i
found-removed b [] i ne = refl
found-removed b (x ∷ buildings) i ne = ground (arith, ne, found-removed b buildings i ne)

abbrev room_of : ℕ → String → Option ℕ → Option String → Option ℕ → Option ℕ → Option String → Room
room_of id name building_id location cycle owner key = record {
  id = id;
  name = name;
  building_id = building_id;
  ad_key = key;
  location = location;
  maintenance_cycle_days = cycle;
  maintenance_owner_id = owner;
}

-- The room of the building that goes: it takes the site, then loses the building.
moved :
    (b : Building) (i id : ℕ) (name : String) (cycle owner : Option ℕ) (key : Option String)
    → (i == b.id) ≡ true
    → unlinked_room b (detached_room b (room_of id name (some i) none cycle owner key))
      ≡ room_of id name none b.location cycle owner key
unfolding detached_room unlinked_room
moved b i id name cycle owner key here = ap (unlinked_room b) detached ∙ unlinked
  where
    detached :
        detached_room b (room_of id name (some i) none cycle owner key)
        ≡ room_of id name (some i) b.location cycle owner key
    detached = rw here refl

    unlinked :
        unlinked_room b (room_of id name (some i) b.location cycle owner key)
        ≡ room_of id name none b.location cycle owner key
    unlinked = rw here refl

unmoved :
    (b : Building) (i id : ℕ) (name : String) (cycle owner : Option ℕ) (key : Option String)
    → (i == b.id) ≡ false
    → unlinked_room b (detached_room b (room_of id name (some i) none cycle owner key))
      ≡ room_of id name (some i) none cycle owner key
unfolding detached_room unlinked_room
unmoved b i id name cycle owner key other = ap (unlinked_room b) detached ∙ unlinked
  where
    detached :
        detached_room b (room_of id name (some i) none cycle owner key)
        ≡ room_of id name (some i) none cycle owner key
    detached = rw other refl

    unlinked :
        unlinked_room b (room_of id name (some i) none cycle owner key)
        ≡ room_of id name (some i) none cycle owner key
    unlinked = rw other refl

site-deleted :
    (b : Building) (buildings : List Building) (id : ℕ) (name : String) (building_id : Option ℕ)
    → (location : Option String) (cycle owner : Option ℕ) (key : Option String)
    → building_by_id buildings b.id ≡ some b
    → is_placed (room_of id name building_id location cycle owner key) ≡ true
    → site
        (select (λ (x : Building). not (x.id == b.id)) buildings)
        (unlinked_room b (detached_room b (room_of id name building_id location cycle owner key)))
      ≡ site buildings (room_of id name building_id location cycle owner key)
unfolding effective_location unlinked_room detached_room
site-deleted b buildings id name none location cycle owner key found p = refl
site-deleted b buildings id name (some i) (some l) cycle owner key found p = ground (arith, p)
site-deleted b buildings id name (some i) none cycle owner key found p =
    elim (Bool-cases (i == b.id)) [
      | inl here ↦
          ap (site rest) (moved b i id name cycle owner key here)
          ∙ ap at (sym found ∙ ap (building_by_id buildings) (sym (==_sound i b.id here)))
      | inr other ↦
          ap (site rest) (unmoved b i id name cycle owner key other)
          ∙ ap at (found-removed b buildings i other)
    ]
  where
    rest : List Building
    rest = select (λ (x : Building). not (x.id == b.id)) buildings

    at : Option Building → Option String
    at = effective_location (some (room_of id name (some i) none cycle owner key))

site_of-site :
    (buildings : List Building) (rooms : List Room) (id : ℕ) (name : String)
    (building_id : Option ℕ) (location : Option String) (cycle owner : Option ℕ)
    (key : Option String)
    → is_placed (room_of id name building_id location cycle owner key) ≡ true
    → site_of
        (record { buildings = buildings; rooms = rooms })
        (room_of id name building_id location cycle owner key)
      ≡ site buildings (room_of id name building_id location cycle owner key)
unfolding effective_location site_of
site_of-site buildings rooms id name none location cycle owner key p = refl
site_of-site buildings rooms id name (some i) (some l) cycle owner key p = ground (arith, p)
site_of-site buildings rooms id name (some i) none cycle owner key p =
    from (building_by_id buildings i)
  where
    from :
        (o : Option Building)
        → coalesce (elim o as (λ _. Option String) [ none ↦ none | some b ↦ b.location ]) none
          ≡ effective_location (some (room_of id name (some i) none cycle owner key)) o
    from none = refl
    from (some b) = or_none b.location
      where
        or_none : (l : Option String) → coalesce l none ≡ l
        or_none none = refl
        or_none (some l) = refl

placed-deleted :
    (b : Building) (r : Room)
    → is_placed r ≡ true
    → is_placed (unlinked_room b (detached_room b r)) ≡ true
unfolding unlinked_room detached_room
placed-deleted b r p = ground (arith, p)

-- Every room that is made or edited is so placed that, in a building, it has no site of its own.
-- Where the rooms are so placed: deleting a building leaves each room the site that it had, and
-- the rooms so placed; and the site that the scopes read in SQL is the one that the console shows.
pub sites_kept :
    (b : Building) (buildings : List Building) (rooms : List Room) (id : ℕ) (name : String)
    (building_id : Option ℕ)
    → (location : Option String) (u : RoomUpdate) (r : Room)
    → building_by_id buildings b.id ≡ some b
    → all is_placed rooms ≡ true
    → (is_placed (created_room id name building_id location) ≡ true)
      × (is_placed (updated_room u r) ≡ true)
      × (map (site (delete_building b buildings rooms).0) (delete_building b buildings rooms).1
          ≡ map (site buildings) rooms)
      × (all is_placed (delete_building b buildings rooms).1 ≡ true)
      × (map (site_of (record { buildings = buildings; rooms = rooms })) rooms
          ≡ map (site buildings) rooms)
unfolding delete_building
sites_kept b buildings rooms id name building_id location u r found p = (
  (written_placed id name building_id location u r).0,
  (written_placed id name building_id location u r).1,
  kept rooms p,
  placed rooms p,
  read rooms p,
)
  where
    kept :
        (rs : List Room)
        → all is_placed rs ≡ true
        → map
            (site (select (λ (x : Building). not (x.id == b.id)) buildings))
            (map (unlinked_room b) (map (detached_room b) rs))
          ≡ map (site buildings) rs
    kept [] p = refl
    kept (r ∷ rs) p =
        ap₂ (λ x xs. x ∷ xs)
          (site-deleted b buildings r.id r.name r.building_id r.location r.maintenance_cycle_days
            r.maintenance_owner_id r.ad_key found (and_true (is_placed r) (all is_placed rs) p).0)
          (kept rs (and_true (is_placed r) (all is_placed rs) p).1)

    placed :
        (rs : List Room)
        → all is_placed rs ≡ true
        → all is_placed (map (unlinked_room b) (map (detached_room b) rs)) ≡ true
    placed [] p = refl
    placed (r ∷ rs) p =
        ap₂ (λ x y. x && y) (placed-deleted b r (and_true (is_placed r) (all is_placed rs) p).0)
          (placed rs (and_true (is_placed r) (all is_placed rs) p).1)

    read :
        (rs : List Room)
        → all is_placed rs ≡ true
        → map (site_of (record { buildings = buildings; rooms = rooms })) rs
          ≡ map (site buildings) rs
    read [] p = refl
    read (r ∷ rs) p =
        ap₂ (λ x xs. x ∷ xs)
          (site_of-site buildings rooms r.id r.name r.building_id r.location
            r.maintenance_cycle_days r.maintenance_owner_id r.ad_key
            (and_true (is_placed r) (all is_placed rs) p).0)
          (read rs (and_true (is_placed r) (all is_placed rs) p).1)
