-- ===== src/Room/Directory/Keys.antt =====
-- The room that bears a key of the directory, over the tables that `room_for_key` leaves.
use natimai_tiai.Prelude.{
  ℕ, suc, length, ◌+◌, ◌≤◌, ◌≡◌, refl, ap, ◌∙◌, sym, Bool, true, false, Option, none, some, String,
  List, [], ◌∷◌, ◌++◌, count_where, is_null, eq_value, string_eq, nat_eq, ◌==◌, ==_refl,
  if◌then◌else◌, Bool-cases, inl, inr, arith,
}
use natimai_tiai.Room.{Room}
use natimai_tiai.Room.Directory.{is_loose, loose_room, room_by_key, adopt}

-- The identifier of the room that bears a key
abbrev pub id_of : List Room → String → Option ℕ
id_of [] k = none
id_of (r ∷ rooms) k = if eq_value r.ad_key k then some r.id else id_of rooms k

abbrev pub bears : String → Room → Bool
bears k r = eq_value r.ad_key k

-- The constraints of the table that a placement could break: no two rooms in no building share a
-- name, and no two rooms a key.
abbrev pub IsSingle : List Room → Type 0
IsSingle rooms =
    ((name : String) → count_where (is_loose name) rooms ≤ 1)
    × ((k : String) → count_where (bears k) rooms ≤ 1)

-- The rooms that bore a key bear it still.
abbrev pub Keeps : List Room → List Room → Type 0
Keeps rooms rooms' = (k : String) (i : ℕ) → id_of rooms k ≡ some i → id_of rooms' k ≡ some i

-- What is left of a table where a room that bore no key was given one
abbrev pub Given : String → List Room → List Room × Room → Type 0
Given key rooms (rooms', room) =
    (id_of rooms key ≡ none → id_of rooms' key ≡ some room.id)
    × ((k : String) → (key == k) ≡ false → id_of rooms' k ≡ id_of rooms k)
    × ((k : String)
        → count_where (bears k) rooms' ≡ (if key == k then 1 else 0) + count_where (bears k) rooms)

abbrev pub Adopted : String → List Room → Option (List Room × Room) → Type 0
Adopted key rooms none = Unit
Adopted key rooms (some r) =
    Given key rooms r
    × ((name : String) → count_where (is_loose name) r.0 ≡ count_where (is_loose name) rooms)
    × (length r.0 ≡ length rooms)

bears_none : (o : Option String) (k : String) → is_null o ≡ true → eq_value o k ≡ false
bears_none none k e = refl
bears_none (some s) k e = cc

pub adopt-Given : (key name : String) (rooms : List Room) → Adopted key rooms (adopt key name rooms)
unfolding adopt
adopt-Given key name [] = tt
adopt-Given key name (r ∷ rooms) = elim (Bool-cases (is_loose name r)) [
  | inl here ↦ elim (Bool-cases (is_null r.ad_key)) [
    | inl open_ ↦
        rw (here, open_)
          (
            (
              (λ _. ground (arith, ==_refl key)),
              (λ k ne. ground (arith, ne, bears_none r.ad_key k open_)),
              (λ k. ground (arith, bears_none r.ad_key k open_)),
            ),
            (λ nm. refl),
            refl,
          )
    | inr taken ↦ rw (here, taken) tt
  ]
  | inr other ↦ rw other (further (adopt key name rooms) (adopt-Given key name rooms))
]
  where
    further :
        (o : Option (List Room × Room))
        → Adopted key rooms o
        → Adopted key
            (r ∷ rooms)
            (elim o [ none ↦ none | some (rooms', room) ↦ some (r ∷ rooms', room) ])
    further none g = tt
    further (some (rooms', room)) g = (
      (
        (λ e. ground (arith, e, g.0.0)),
        (λ k ne. ground (arith, g.0.1 k ne)),
        (λ k. ground (arith, g.0.2 k)),
      ),
      (λ nm. ground (arith, g.1 nm)),
      ap suc g.2,
    )

abbrev id_if : Option Room → Option ℕ
id_if none = none
id_if (some r) = some r.id

pub id_of-found :
    (rooms : List Room) (k : String) (r : Room)
    → room_by_key rooms k ≡ some r
    → id_of rooms k ≡ some r.id
id_of-found [] k r e = cc
id_of-found (x ∷ rooms) k r e = elim (Bool-cases (eq_value x.ad_key k)) [
  | inl here ↦
      rw here (ap id_if (sym (ap (λ b. if b then some x else room_by_key rooms k) here) ∙ e))
  | inr other ↦
      rw other (
        id_of-found rooms k r (sym (ap (λ b. if b then some x else room_by_key rooms k) other) ∙ e))
]

pub id_of-missing :
    (rooms : List Room) (k : String)
    → room_by_key rooms k ≡ none
    → (id_of rooms k ≡ none) × (count_where (bears k) rooms ≡ 0)
id_of-missing [] k e = (refl, refl)
id_of-missing (x ∷ rooms) k e = ground (arith, e, id_of-missing rooms k)

pub none_loose :
    (rooms : List Room) (name : String)
    → loose_room rooms name ≡ none
    → count_where (is_loose name) rooms ≡ 0
none_loose [] name e = refl
none_loose (r ∷ rooms) name e = ground (arith, e, none_loose rooms name)

pub id_of-append :
    (rooms : List Room) (r : Room) (k : String)
    → id_of (rooms ++ r ∷ []) k ≡ (
        if is_null (id_of rooms k)
        then (if eq_value r.ad_key k then some r.id else none)
        else id_of rooms k)
id_of-append [] r k = refl
id_of-append (x ∷ rooms) r k = ground (arith, id_of-append rooms r k)
