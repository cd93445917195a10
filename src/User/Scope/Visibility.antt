-- ===== src/User/Scope/Visibility.antt =====
-- What the predicates of a scope select: the postes of a union of scopes, and of a covering scope.
use natimai_tiai.Prelude.{
  ℕ, ◌≡◌, refl, sym, ◌∙◌, ap, ap₂, Bool, true, false, ◌&&◌, ◌||◌, not, Option, none, some, String,
  List, [], ◌∷◌, ◌++◌, map, any, subset, contains, in_values, or_all, select, nat_eq, string_eq,
  if◌then◌else◌, arith, Eq, ◌==◌, contains-append, contains-subset, inl, inr, Bool-cases,
}
use natimai_tiai.Machine.{Machine}
use natimai_tiai.Room.{Room}
use natimai_tiai.User.Scope.{
  Scope, Places, empty, is_empty, join, covers, union_from, union, wider, site_of, room_conditions,
  room_ids_in, machine_visible, nonempty,
}

module _ {ℓ} {A : Type ℓ} ⦃e : Eq A⦄ where
  in_values-append :
      (o : Option A) (xs ys : List A) → in_values o (xs ++ ys) ≡ (in_values o xs || in_values o ys)
  in_values-append none xs ys = refl
  in_values-append (some a) xs ys = contains-append xs ys a

  in_values-subset :
      (o : Option A) (xs ys : List A)
      → subset xs ys ≡ true
      → in_values o xs ≡ true
      → in_values o ys ≡ true
  in_values-subset none xs ys h m = m
  in_values-subset (some a) xs ys h m = contains-subset xs ys a h m

-- The three tests on a room, with no regard to which of the scope's lists are empty.
abbrev in_room : Places → Scope → Room → Bool
in_room p s r =
    in_values (site_of p r) s.locations
    || (in_values r.building_id s.buildings || contains s.rooms r.id)

-- A test left out for an empty list is a test that would fail.
module _ {ℓ} {A : Type ℓ} ⦃e : Eq A⦄ where
  or_all-in_values :
      (o : Option A) (xs : List A)
      → or_all (if nonempty xs then in_values o xs ∷ [] else []) ≡ in_values o xs
  or_all-in_values none [] = refl
  or_all-in_values none (x ∷ xs) = refl
  or_all-in_values (some a) [] = refl
  or_all-in_values (some a) (x ∷ xs) = ground arith

in_values-nil {ℓ} : {A : Type ℓ} ⦃e : Eq A⦄ (o : Option A) → in_values o [] ≡ false
in_values-nil none = refl
in_values-nil (some a) = refl

or_all-append : (xs ys : List Bool) → or_all (xs ++ ys) ≡ (or_all xs || or_all ys)
or_all-append [] ys = refl
or_all-append (x ∷ xs) ys = ground (arith, or_all-append xs ys)

nil_of_nonempty {ℓ} : {A : Type ℓ} (xs : List A) → nonempty xs ≡ false → xs ≡ []
nil_of_nonempty [] h = refl
nil_of_nonempty (x ∷ xs) h = cc

locations-join :
    (s t : Scope) (o : Option String)
    → in_values o (join s t).locations ≡ (in_values o s.locations || in_values o t.locations)
unfolding join
locations-join s t o = in_values-append o s.locations t.locations

module _ (p : Places) where
  or_all-room_conditions : (s : Scope) (r : Room) → or_all (room_conditions p s r) ≡ in_room p s r
  unfolding room_conditions
  or_all-room_conditions s r =
      simp (or_all-append, or_all-in_values, or_all-in_values (some r.id) s.rooms)

  -- A poste is in a room of the scope where some row of `rooms` has its number and passes.
  abbrev in_room_id : List Room → Scope → ℕ → Bool
  in_room_id rooms s i = any (λ (r : Room). (i == r.id) && in_room p s r) rooms

  contains-rooms :
      (s : Scope) (rooms : List Room) (i : ℕ)
      → contains (map (λ (r : Room). r.id) (select (λ r. or_all (room_conditions p s r)) rooms)) i
        ≡ in_room_id rooms s i
  contains-rooms s [] i = refl
  contains-rooms s (r ∷ rooms) i =
      rw (or_all-room_conditions s r) (ground (arith, contains-rooms s rooms i))

  abbrev in_room? : Option ℕ → Scope → Bool
  in_room? none s = false
  in_room? (some i) s = in_room_id p.rooms s i

  abbrev in_place : Scope → Machine → Bool
  in_place s m = in_values m.location s.locations || in_room? m.room_id s

  in_room-empty : (s : Scope) (r : Room) → is_empty s ≡ true → in_room p s r ≡ false
  unfolding is_empty
  in_room-empty s r h = ground (
    arith,
    nil_of_nonempty s.locations,
    nil_of_nonempty s.buildings,
    nil_of_nonempty s.rooms,
    in_values-nil (site_of p r),
    in_values-nil r.building_id,
  )

  in_room_id-empty :
      (s : Scope) (rooms : List Room) (i : ℕ) → is_empty s ≡ true → in_room_id rooms s i ≡ false
  in_room_id-empty s [] i h = refl
  in_room_id-empty s (r ∷ rooms) i h =
      ground (arith, in_room-empty s r h, in_room_id-empty s rooms i h)

  or_all-rooms :
      (s : Scope) (o : Option ℕ)
      → or_all (if not (is_empty s) then in_values o (room_ids_in p s) ∷ [] else []) ≡ in_room? o s
  unfolding room_ids_in
  or_all-rooms s none = ground arith
  or_all-rooms s (some i) = elim (Bool-cases (is_empty s)) [
    | inl e ↦ rw e (sym (in_room_id-empty s p.rooms i e))
    | inr e ↦ rw e (ground (arith, contains-rooms s p.rooms i))
  ]

  -- The predicate of a scope, guards aside.
  pub machine_visible-eq-in_place :
      (s : Scope) (m : Machine) → machine_visible p (some s) m ≡ in_place s m
  unfolding machine_visible
  machine_visible-eq-in_place s m =
      or_all-append (if nonempty s.locations then in_values m.location s.locations ∷ [] else []) _
      ∙ ap₂ ◌||◌ (or_all-in_values m.location s.locations) (or_all-rooms s m.room_id)

  in_room-join :
      (s t : Scope) (r : Room) → in_room p (join s t) r ≡ (in_room p s r || in_room p t r)
  unfolding join
  in_room-join s t r = ground (
    arith,
    in_values-append (site_of p r) s.locations t.locations,
    in_values-append r.building_id s.buildings t.buildings,
    contains-append s.rooms t.rooms r.id,
  )

  in_room_id-join :
      (s t : Scope) (rooms : List Room) (i : ℕ)
      → in_room_id rooms (join s t) i ≡ (in_room_id rooms s i || in_room_id rooms t i)
  in_room_id-join s t [] i = refl
  in_room_id-join s t (r ∷ rooms) i =
      ground (arith, in_room-join s t r, in_room_id-join s t rooms i)

  in_room?-join :
      (s t : Scope) (o : Option ℕ) → in_room? o (join s t) ≡ (in_room? o s || in_room? o t)
  in_room?-join s t none = refl
  in_room?-join s t (some i) = in_room_id-join s t p.rooms i

  in_place-join :
      (s t : Scope) (m : Machine) → in_place (join s t) m ≡ (in_place s m || in_place t m)
  in_place-join s t m = ground (arith, locations-join s t m.location, in_room?-join s t m.room_id)

  in_room-covers :
      (s t : Scope) (r : Room) → covers s t ≡ true → in_room p t r ≡ true → in_room p s r ≡ true
  unfolding covers
  in_room-covers s t r h m = ground (
    arith,
    in_values-subset (site_of p r) t.locations s.locations,
    in_values-subset r.building_id t.buildings s.buildings,
    contains-subset t.rooms s.rooms r.id,
  )

  in_room_id-covers :
      (s t : Scope) (rooms : List Room) (i : ℕ)
      → covers s t ≡ true
      → in_room_id rooms t i ≡ true
      → in_room_id rooms s i ≡ true
  in_room_id-covers s t [] i h m = m
  in_room_id-covers s t (r ∷ rooms) i h m =
      ground (arith, in_room-covers s t r h, in_room_id-covers s t rooms i h)

  in_room?-covers :
      (s t : Scope) (o : Option ℕ) → covers s t ≡ true → in_room? o t ≡ true → in_room? o s ≡ true
  in_room?-covers s t none h m = m
  in_room?-covers s t (some i) h m = in_room_id-covers s t p.rooms i h m

  in_place-covers :
      (s t : Scope) (m : Machine) → covers s t ≡ true → in_place t m ≡ true → in_place s m ≡ true
  unfolding covers
  in_place-covers s t m h v =
      ground (
        arith,
        in_values-subset m.location t.locations s.locations,
        in_room?-covers s t m.room_id h,
      )

  -- The loop of `union`, whose account so far is confined to `out`.
  union_from-visible :
      (out : Scope) (scopes : List (Option Scope)) (m : Machine)
      → machine_visible p (union_from out scopes) m
        ≡ (in_place out m || any (λ s. machine_visible p s m) scopes)
  unfolding union_from machine_visible
  union_from-visible out [] m = ground (arith, machine_visible-eq-in_place out m)
  union_from-visible out (none ∷ scopes) m = ground arith
  union_from-visible out (some s ∷ scopes) m = ground (
    arith,
    union_from-visible (join out s) scopes m,
    in_place-join out s m,
    machine_visible-eq-in_place s m,
  )

  in_room?-empty : (o : Option ℕ) → in_room? o empty ≡ false
  unfolding is_empty
  in_room?-empty none = refl
  in_room?-empty (some i) = in_room_id-empty empty p.rooms i refl

  in_place-none : (m : Machine) → in_place empty m ≡ false
  in_place-none m = ground (arith, in_values-nil m.location, in_room?-empty m.room_id)

  -- An account sees a poste exactly when one of its groups does: the scope that `union` gathers
  -- shows the postes that the groups' scopes show between them, all of them as soon as one group
  -- is unrestricted, and none to an account in no group.
  pub machine_visible-union :
      (scopes : List (Option Scope)) (m : Machine)
      → machine_visible p (union scopes) m ≡ any (λ s. machine_visible p s m) scopes
  unfolding union
  machine_visible-union scopes m =
      union_from-visible empty scopes m
      ∙ ap (λ b. b || any (λ s. machine_visible p s m) scopes) (in_place-none m)

  -- Whatever poste a target sees, an actor that it is not wider than sees too.
  pub wider-visible :
      (actor target : Option Scope) (m : Machine)
      → wider actor target ≡ false
      → machine_visible p target m ≡ true
      → machine_visible p actor m ≡ true
  wider-visible none target m h v = unfold machine_visible in refl
  wider-visible (some a) none m h v = unfold wider in ground arith
  wider-visible (some a) (some t) m h v = ground (
    arith,
    machine_visible-eq-in_place a m,
    machine_visible-eq-in_place t m,
    in_place-covers a t m (unfold wider in (ground arith)),
  )
