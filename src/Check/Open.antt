-- ===== src/Check/Open.antt =====
-- The open requests of the postes, through a merge.
use natimai_tiai.Prelude.{
  ℕ, ◌+◌, ◌≡◌, refl, arith, false, not, List, [], ◌∷◌, map, is_not_null, nat_eq, ◌==◌,
  if◌then◌else◌, count_where, Bool-cases, inl, inr, ◌∙◌,
}
use natimai_tiai.Prelude.Time.{Instant}
use natimai_tiai.Check.{
  MachineCheck, is_open_of, open_for_machine, superseded, close_superseded, reattached, move_to,
}

-- The open requests of a poste
abbrev pub open_of : ℕ → List MachineCheck → ℕ
open_of m checks = count_where (is_open_of m) checks

open_one :
    (m : ℕ) (checks : List MachineCheck)
    → is_not_null (open_for_machine checks m) ≡ not (open_of m checks == 0)
unfolding open_for_machine
open_one m [] = refl
open_one m (c ∷ checks) = ground (arith, open_one m checks)

closed_open :
    (source : ℕ) (now : Instant) (m : ℕ) (checks : List MachineCheck)
    → open_of m
        (map (λ (c : MachineCheck). if is_open_of source c then superseded now c else c) checks)
      ≡ (if m == source then 0 else open_of m checks)
unfolding superseded
closed_open source now m [] = ground arith
closed_open source now m (c ∷ checks) = ground (arith, closed_open source now m checks)

reattached_open :
    (source target m : ℕ) (checks : List MachineCheck)
    → open_of m (map (reattached source target) checks) ≡ (
        if m == target
        then (if source == target
            then open_of target checks
            else open_of target checks + open_of source checks)
        else if m == source
        then 0
        else open_of m checks)
reattached_open source target m [] = ground arith
reattached_open source target m (c ∷ checks) =
    ground (arith, reattached_open source target m checks)

-- After a merge, the kept poste has its own open requests if it had one and the source's else, the
-- source has none, and the others have what they had.
pub open-move_to :
    (checks : List MachineCheck) (source target : ℕ) (now : Instant) (m : ℕ)
    → (source == target) ≡ false
    → open_of m (move_to checks source target now) ≡ (
        if m == target
        then (if open_of target checks == 0 then open_of source checks else open_of target checks)
        else if m == source
        then 0
        else open_of m checks)
unfolding move_to close_superseded
open-move_to checks source target now m ne =
    let kept = close_superseded checks source target now in
    reattached_open source target m kept
    ∙ elim (Bool-cases (is_not_null (open_for_machine checks target))) [
      | inl some_open ↦ rw some_open (
          ground (
            arith,
            ne,
            some_open,
            open_one target checks,
            closed_open source now target checks,
            closed_open source now source checks,
            closed_open source now m checks,
          ))
      | inr none_open ↦ rw none_open (ground (arith, ne, none_open, open_one target checks))
    ]

-- All the requests of a poste, open or not
abbrev pub checks_of : ℕ → List MachineCheck → ℕ
checks_of m checks = count_where (λ (c : MachineCheck). c.machine_id == m) checks

checks-reattached :
    (source target : ℕ) (checks : List MachineCheck) (m : ℕ)
    → (source == target) ≡ false
    → checks_of m (map (reattached source target) checks) ≡ (
        if m == target
        then checks_of target checks + checks_of source checks
        else if m == source
        then 0
        else checks_of m checks)
checks-reattached source target [] m ne = ground arith
checks-reattached source target (c ∷ checks) m ne =
    ground (arith, ne, checks-reattached source target checks m ne)

checks-closed :
    (checks : List MachineCheck) (source : ℕ) (now : Instant) (m : ℕ)
    → checks_of m
        (map (λ (c : MachineCheck). if is_open_of source c then superseded now c else c) checks)
      ≡ checks_of m checks
unfolding superseded
checks-closed [] source now m = refl
checks-closed (c ∷ checks) source now m = ground (arith, checks-closed checks source now m)

checks-superseded :
    (checks : List MachineCheck) (source target : ℕ) (now : Instant) (m : ℕ)
    → checks_of m (close_superseded checks source target now) ≡ checks_of m checks
unfolding close_superseded
checks-superseded checks source target now m =
    elim (Bool-cases (is_not_null (open_for_machine checks target))) [
      | inl some_open ↦ rw some_open (checks-closed checks source now m)
      | inr none_open ↦ rw none_open refl
    ]

-- A merge drops no request, and every one of the source's is the kept poste's.
pub checks-moved :
    (checks : List MachineCheck) (source target : ℕ) (now : Instant) (m : ℕ)
    → (source == target) ≡ false
    → checks_of m (move_to checks source target now) ≡ (
        if m == target
        then checks_of target checks + checks_of source checks
        else if m == source
        then 0
        else checks_of m checks)
unfolding move_to
checks-moved checks source target now m ne =
    let closed = close_superseded checks source target now in
    ground (
      arith,
      checks-reattached source target closed m ne,
      checks-superseded checks source target now m,
      checks-superseded checks source target now source,
      checks-superseded checks source target now target,
    )
