-- ===== src/Room/Directory/Given.antt =====
-- What `room_for_key` leaves of the rooms, and where it is refused.
use natimai_tiai.Prelude.{
  ℕ, suc, length, ◌||◌, ◌+◌, ◌≤◌, ◌≡◌, refl, ap, ◌∙◌, Bool, true, false, Option, none, some, String,
  List, [], ◌∷◌, ◌++◌, count_where, string_eq, nat_eq, ◌==◌, ==_refl, ==_sound, if◌then◌else◌,
  Bool-cases, inl, inr, arith,
}
use natimai_tiai.Room.{Room}
use natimai_tiai.Room.Directory.{
  is_long, is_long_key, is_loose, loose_room, room_by_key, adopt, new_room, added, found_or_made,
  room_for_key,
}
use natimai_tiai.Room.Outcome.{Ends}
use natimai_tiai.Room.Directory.Names.{any_long, free_name-some}
use natimai_tiai.Room.Directory.Keys.{
  id_of, bears, IsSingle, Keeps, Given, Adopted, adopt-Given, id_of-found, id_of-missing,
  none_loose, id_of-append,
}

-- What `room_for_key` answers: the room that bears the key, in a table that keeps the rooms of the
-- other keys and the constraints, and is longer by one room at most
abbrev pub Files : String → List Room → List Room × Room × Bool → Type 0
Files key rooms (rooms', room, created) =
    (id_of rooms' key ≡ some room.id)
    × Keeps rooms rooms'
    × (IsSingle rooms → IsSingle rooms')
    × (length rooms' ≤ suc (length rooms))

-- The key, or the name with a number up to a bound, is too long for its column.
abbrev pub is_overlong : ℕ → String → String → Bool
is_overlong last key name = is_long_key key || any_long last name

Given-Files :
    (key : String) (rooms rooms' : List Room) (room : Room) (created : Bool)
    → room_by_key rooms key ≡ none
    → Given key rooms (rooms', room)
    → (((name : String) → count_where (is_loose name) rooms ≤ 1)
        → (name : String) → count_where (is_loose name) rooms' ≤ 1)
    → length rooms' ≤ suc (length rooms)
    → Files key rooms (rooms', room, created)
Given-Files key rooms rooms' room created missing g names longer = (
  g.0 (id_of-missing rooms key missing).0,
  (λ k i e. elim (Bool-cases (key == k)) [
    | inl here ↦ cc (e, ap (id_of rooms) (==_sound key k here), (id_of-missing rooms key missing).0)
    | inr other ↦ g.1 k other ∙ e
  ]),
  (λ single. (
    names single.0,
    (λ k. elim (Bool-cases (key == k)) [
      | inl here ↦ ground (
        arith,
        here,
        g.2 k,
        ap (λ s. count_where (bears s) rooms) (==_sound key k here),
        (id_of-missing rooms key missing).1,
      )
      | inr other ↦ ground (arith, other, g.2 k, single.1 k)
    ]),
  )),
  longer,
)

count-added {ℓ} :
    {A : Type ℓ} (p : A → Bool) (xs : List A) (x : A)
    → count_where p (xs ++ x ∷ []) ≡ (if p x then 1 else 0) + count_where p xs
count-added p [] x = omega arith
count-added p (y ∷ xs) x = ground (arith, count-added p xs x)

new-Given :
    (fresh : ℕ) (key candidate : String) (rooms : List Room)
    → Given key rooms (rooms ++ new_room fresh candidate key ∷ [], new_room fresh candidate key)
new-Given fresh key candidate rooms =
    let r = new_room fresh candidate key in
    (
      (λ e. ground (arith, e, id_of-append rooms r key, ==_refl key)),
      (λ k ne. ground (arith, ne, id_of-append rooms r k)),
      (λ k. count-added (bears k) rooms r),
    )

new_names :
    (fresh : ℕ) (key candidate : String) (rooms : List Room)
    → loose_room rooms candidate ≡ none
    → ((name : String) → count_where (is_loose name) rooms ≤ 1)
    → (name : String) → count_where (is_loose name) (rooms ++ new_room fresh candidate key ∷ []) ≤ 1
new_names fresh key candidate rooms free single name = elim (Bool-cases (candidate == name)) [
  | inl here ↦ ground (
    arith,
    here,
    count-added (is_loose name) rooms (new_room fresh candidate key),
    ap (λ s. count_where (is_loose s) rooms) (==_sound candidate name here),
    none_loose rooms candidate free,
  )
  | inr other ↦
      ground (
        arith,
        other,
        count-added (is_loose name) rooms (new_room fresh candidate key),
        single name,
      )
]

length-added : (rooms : List Room) (r : Room) → length (rooms ++ r ∷ []) ≡ suc (length rooms)
length-added [] r = refl
length-added (x ∷ rooms) r = ap suc (length-added rooms r)

added-Files :
    (fresh : ℕ) (rooms : List Room) (key name c : String) (last : ℕ)
    → room_by_key rooms key ≡ none
    → loose_room rooms c ≡ none
    → (is_long c ≡ true → any_long last name ≡ true)
    → Ends (Files key rooms) (is_overlong last key name) (added fresh rooms key c)
added-Files fresh rooms key name c last e free tried =
    elim (Bool-cases (is_long c || is_long_key key)) [
      | inl wide ↦ inr (rw wide refl, ground (arith, tried))
      | inr fits ↦
          let r = new_room fresh c key in
          inl (
            (rooms ++ r ∷ [], r, true),
            rw fits refl,
            Given-Files key rooms (rooms ++ r ∷ []) r true e (new-Given fresh key c rooms)
                (new_names fresh key c rooms free) (omega (arith, length-added rooms r)),
          )
    ]

found_or_made-Files :
    (fresh : ℕ) (rooms : List Room) (key name : String) (last : ℕ) (o : Option Room)
    (a : Option (List Room × Room))
    → length rooms + 2 ≤ last
    → room_by_key rooms key ≡ o
    → Adopted key rooms a
    → Ends (Files key rooms) (is_overlong last key name) (found_or_made fresh rooms key name o a)
unfolding found_or_made
found_or_made-Files fresh rooms key name last (some room) a le e g = inl (
  (rooms, room, false),
  refl,
  (id_of-found rooms key room e, (λ k i f. f), (λ single. single), omega arith),
)
found_or_made-Files fresh rooms key name last none (some (rooms', room)) le e g =
    elim (Bool-cases (is_long_key key)) [
      | inl wide ↦ inr (rw wide refl, ground (arith, wide))
      | inr fits ↦ inl (
        (rooms', room, false),
        rw fits refl,
        Given-Files key rooms rooms' room false e g.0
            (λ single nm. omega (arith, g.1 nm, single nm)) (omega (arith, g.2)),
      )
    ]
found_or_made-Files fresh rooms key name last none none le e g =
    let (c, found, free, tried) = free_name-some rooms name last le in
    rw (found, found_or_made) (added-Files fresh rooms key name c last e free tried)

-- The room of a key is found, adopted or made, or a text is too long for its column.
pub room_for_key-Files :
    (fresh : ℕ) (rooms : List Room) (key name : String) (last : ℕ)
    → length rooms + 2 ≤ last
    → Ends (Files key rooms) (is_overlong last key name) (room_for_key fresh rooms key name)
unfolding room_for_key
room_for_key-Files fresh rooms key name last le =
    found_or_made-Files fresh rooms key name last (room_by_key rooms key) (adopt key name rooms) le
      refl (adopt-Given key name rooms)
