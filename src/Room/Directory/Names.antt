-- ===== src/Room/Directory/Names.antt =====
-- The search for a free name ends, and finds one that was tried.
use natimai_tiai.Prelude.{
  ℕ, zero, suc, ◌+◌, Bool, ◌||◌, ◌<◌, ◌≤◌, ◌≡◌, refl, ap, ◌∙◌, true, false, Option, none, some,
  String, List, [], ◌∷◌, length, count_where, is_null, string_eq, nat_eq, ◌==◌, ==_sound, leb,
  Bool-cases, inl, inr, arith,
}
use natimai_tiai.Room.{Room}
use natimai_tiai.Room.Numbered.{numbered, number_of, number_of-numbered}
use natimai_tiai.Room.Directory.{loose_room, free_name, is_long}

-- A name, or the name with a number up to a bound, is too long.
abbrev pub any_long : ℕ → String → Bool
any_long zero name = is_long name
any_long (suc n) name = is_long (numbered name (suc n)) || any_long n name

any_long-name : (n : ℕ) (name : String) → is_long name ≡ true → any_long n name ≡ true
any_long-name zero name long = long
any_long-name (suc n) name long = ground (arith, any_long-name n name long)

any_long-numbered :
    (n k : ℕ) (name : String)
    → 0 < k
    → k ≤ n
    → is_long (numbered name k) ≡ true
    → any_long n name ≡ true
any_long-numbered zero k name pos le long = absurd (omega arith)
any_long-numbered (suc n) k name pos le long = elim (Bool-cases (k == suc n)) [
  | inl here ↦ ground (arith, ap (λ i. is_long (numbered name i)) (==_sound k (suc n) here))
  | inr below ↦ ground (arith, any_long-numbered n k name pos (ground arith) long)
]

-- How many rooms have a number that the search has not passed
abbrev ahead : ℕ → List Room → ℕ
ahead n rooms = count_where (λ (r : Room). leb n (number_of r.name)) rooms

ahead_le : (n : ℕ) (rooms : List Room) → ahead n rooms ≤ length rooms
ahead_le n [] = omega arith
ahead_le n (r ∷ rooms) = ground (arith, ahead_le n rooms)

ahead-suc : (n : ℕ) (rooms : List Room) → ahead (suc n) rooms ≤ ahead n rooms
ahead-suc n [] = omega arith
ahead-suc n (r ∷ rooms) = ground (arith, ahead-suc n rooms)

-- A room that has the name of a number is ahead of it and is passed.
ahead_taken :
    (name : String) (n : ℕ) (rooms : List Room)
    → is_null (loose_room rooms (numbered name n)) ≡ false
    → ahead (suc n) rooms < ahead n rooms
ahead_taken name n [] taken = cc
ahead_taken name n (r ∷ rooms) taken = elim (Bool-cases (r.name == numbered name n)) [
  | inl here ↦ ground (
    arith,
    ap number_of (==_sound r.name (numbered name n) here) ∙ number_of-numbered name n,
    ahead-suc n rooms,
  )
  | inr other ↦ ground (arith, other, ahead_taken name n rooms)
]

free_name-numbered :
    (fuel : ℕ) (rooms : List Room) (name : String) (n last : ℕ)
    → ahead n rooms < fuel
    → 0 < n
    → n + fuel ≤ suc last
    → (c : String) × (free_name fuel rooms name (numbered name n) (suc n) ≡ some c)
      × (loose_room rooms c ≡ none)
      × (is_long c ≡ true → any_long last name ≡ true)
unfolding free_name
free_name-numbered zero rooms name n last h pos le = absurd (omega arith)
free_name-numbered (suc fuel) rooms name n last h pos le =
    elim (Bool-cases (is_null (loose_room rooms (numbered name n)))) [
      | inl free ↦ (
        numbered name n,
        rw free refl,
        null_none (loose_room rooms (numbered name n)) free,
        any_long-numbered last n name pos (omega (arith, le)),
      )
      | inr taken ↦ rw taken (
          free_name-numbered fuel rooms name (suc n) last
            (omega (arith, ahead_taken name n rooms taken)) (omega arith) (omega (arith, le)))
    ]
  where
    null_none : (o : Option Room) → is_null o ≡ true → o ≡ none
    null_none none e = refl
    null_none (some r) e = cc

-- So much fuel as there are rooms, and two more, is enough.
pub free_name-some :
    (rooms : List Room) (name : String) (last : ℕ)
    → length rooms + 2 ≤ last
    → (c : String) × (free_name (suc (suc (length rooms))) rooms name name 2 ≡ some c)
      × (loose_room rooms c ≡ none)
      × (is_long c ≡ true → any_long last name ≡ true)
unfolding free_name
free_name-some rooms name last le = elim (Bool-cases (is_null (loose_room rooms name))) [
  | inl free ↦ (name, rw free refl, ground (arith, free), any_long-name last name)
  | inr taken ↦ rw taken (
      free_name-numbered (suc (length rooms)) rooms name 2 last (omega (arith, ahead_le 2 rooms))
        (omega arith) (omega (arith, le)))
]
