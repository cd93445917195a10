-- ===== src/Command/Queue/Dedup.antt =====
-- Queueing never doubles an open command.
use natimai_tiai.Prelude.{
  ℕ, suc, ◌<◌, ◌≡◌, refl, Bool, true, ◌&&◌, not, Option, none, some, List, [], ◌∷◌, map, select,
  any, contains, count_where, count_where-append, ltb, nat_eq, ◌==◌, if◌then◌else◌, arith, ◌+◌, ◌≤◌,
  ==_refl, ==_sound, Bool-cases, inl, inr, length, ap,
}
use natimai_tiai.Prelude.Time.{Instant}
use natimai_tiai.Command.{Command, same_type}
use natimai_tiai.Command.Queue.{
  is_open, for_package, new_row, machines_with_open_command, Order, new_rows, create_for_machines,
}

-- The open commands of a machine, of an order's type and package.
abbrev pub open_on : Order → Instant → ℕ → Command → Bool
open_on o now m c = (c.machine_id == m) && is_open o.type o.package_id now c

-- How often a machine is named.
abbrev pub occurrences : ℕ → List ℕ → ℕ
occurrences m = count_where (λ x. x == m)

occurrences-select :
    (p : ℕ → Bool) (m : ℕ) (xs : List ℕ)
    → occurrences m (select p xs) ≡ (if p m then occurrences m xs else 0)
occurrences-select p m [] = ground arith
occurrences-select p m (x ∷ xs) = elim (Bool-cases (x == m)) [
  | inl same ↦ ground (arith, occurrences-select p m xs, ap p (==_sound x m same))
  | inr other ↦ ground (arith, occurrences-select p m xs)
]

contains-occurrences : (m : ℕ) (xs : List ℕ) → contains xs m ≡ ltb 0 (occurrences m xs)
contains-occurrences m [] = ground arith
contains-occurrences m (x ∷ xs) = ground (arith, contains-occurrences m xs)

any-count {ℓ} : {A : Type ℓ} (p : A → Bool) (xs : List A) → any p xs ≡ ltb 0 (count_where p xs)
any-count p [] = ground arith
any-count p (x ∷ xs) = ground (arith, any-count p xs)

length-partition {ℓ} :
    {A : Type ℓ} (p : A → Bool) (xs : List A)
    → length (select (λ x. not (p x)) xs) + length (select p xs) ≡ length xs
length-partition p [] = omega arith
length-partition p (x ∷ xs) = ground (arith, length-partition p xs)

-- An order's own rows pass its condition on the package.
same_package : (p : Option ℕ) (c : Command) → c.package_id ≡ p → for_package p c ≡ true
same_package none c e = refl
same_package (some q) c e = rw e (==_refl q)

module _ (o : Order) (now : Instant) where
  contains-open :
      (commands : List Command) (ids : List ℕ) (m : ℕ)
      → contains (machines_with_open_command commands ids o.type o.package_id now) m
        ≡ (contains ids m && any (open_on o now m) commands)
  unfolding machines_with_open_command
  contains-open [] ids m = ground arith
  contains-open (c ∷ commands) ids m = elim (Bool-cases (m == c.machine_id)) [
    | inl same ↦
        ground
          (arith, contains-open commands ids m, ap (contains ids) (==_sound m c.machine_id same))
    | inr other ↦ ground (arith, contains-open commands ids m)
  ]

  -- A row just queued is open until it expires.
  new_row-open :
      (fresh t : ℕ)
      → now < o.expires_at
      → is_open o.type o.package_id now (new_row o now fresh t) ≡ true
  unfolding new_row is_open same_type
  new_row-open fresh t later =
      ground (arith, same_package o.package_id (new_row o now fresh t) refl)

  new_row-machine : (fresh t : ℕ) → (new_row o now fresh t).machine_id ≡ t
  unfolding new_row
  new_row-machine fresh t = refl

  new_rows-open :
      (m fresh : ℕ) (targets : List ℕ)
      → now < o.expires_at
      → count_where (open_on o now m) (new_rows o now fresh targets) ≡ occurrences m targets
  unfolding new_rows
  new_rows-open m fresh [] later = refl
  new_rows-open m fresh (t ∷ targets) later = ground (
    arith,
    new_row-open fresh t later,
    new_row-machine fresh t,
    new_rows-open m (suc fresh) targets later,
  )

  length-new_rows :
      (fresh : ℕ) (targets : List ℕ)
      → length (map (λ (c : Command). c.id) (new_rows o now fresh targets)) ≡ length targets
  unfolding new_rows
  length-new_rows fresh [] = refl
  length-new_rows fresh (t ∷ targets) = omega (arith, length-new_rows (suc fresh) targets)

  -- The open commands of a poste after the call.
  count-created :
      (commands : List Command) (ids : List ℕ) (fresh m : ℕ)
      → now < o.expires_at
      → count_where (open_on o now m) (create_for_machines commands ids o now fresh).commands
        ≡ count_where (open_on o now m) commands
          + (if contains ids m && ltb 0 (count_where (open_on o now m) commands)
              then 0
              else occurrences m ids)
  unfolding create_for_machines
  count-created commands ids fresh m later =
      let already = machines_with_open_command commands ids o.type o.package_id now in
      let targets = select (λ x. not (contains already x)) ids in
      ground (
        arith,
        count_where-append (open_on o now m) commands (new_rows o now fresh targets),
        new_rows-open m fresh targets later,
        occurrences-select (λ x. not (contains already x)) m ids,
        contains-open commands ids m,
        any-count (open_on o now m) commands,
      )

  length-created :
      (commands : List Command) (ids : List ℕ) (fresh : ℕ)
      → let done = create_for_machines commands ids o now fresh in
        length done.created + length done.skipped ≡ length ids
  unfolding create_for_machines
  length-created commands ids fresh =
      let already = machines_with_open_command commands ids o.type o.package_id now in
      omega (
        arith,
        length-new_rows fresh (select (λ x. not (contains already x)) ids),
        length-partition (contains already) ids,
      )

  -- Queueing an order that is not yet expired, on postes each named once, where no poste had two
  -- open commands of the order's type and package: every poste named ends with exactly one, whether
  -- it was queued now or was waiting already, every other poste ends with as many as it had, and
  -- each poste named is counted once, as created or as skipped.
  pub create_exactly_once :
      (commands : List Command) (ids : List ℕ) (fresh : ℕ)
      → now < o.expires_at
      → ((m : ℕ) → occurrences m ids ≤ 1)
      → ((m : ℕ) → count_where (open_on o now m) commands ≤ 1)
      → let done = create_for_machines commands ids o now fresh in
        ((m : ℕ)
          → count_where (open_on o now m) done.commands
            ≡ (if contains ids m then 1 else count_where (open_on o now m) commands))
        × (length done.created + length done.skipped ≡ length ids)
  create_exactly_once commands ids fresh later once single = (
    λ m. ground (
      arith,
      count-created commands ids fresh m later,
      contains-occurrences m ids,
      once m,
      single m,
    ),
    length-created commands ids fresh,
  )
