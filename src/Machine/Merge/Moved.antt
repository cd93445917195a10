-- ===== src/Machine/Merge/Moved.antt =====
-- Whose the rows are after a merge: those of the duplicate, of the kept poste and of the others.
use natimai_tiai.Prelude.{
  ℕ, ◌+◌, ◌≡◌, refl, ap₂, arith, false, not, none, List, [], ◌∷◌, map, any, select, eq_value,
  nat_eq, ◌==◌, if◌then◌else◌, count_where, Bool-cases, inl, inr,
}
use natimai_tiai.Prelude.Time.{Instant}
use natimai_tiai.Machine.{Machine}
use natimai_tiai.Command.{Command}
use natimai_tiai.Threat.{Threat}
use natimai_tiai.Check.Open.{checks_of}
use natimai_tiai.Maintenance.Visits.{Intervention}
use natimai_tiai.Usage.Counters.{cap}
use natimai_tiai.Usage.Counters.Rows.{seconds_of}
use natimai_tiai.Machine.Merge.{Fleet, moved_command, moved_intervention, moved_threat, kept_row}

-- The rows of a poste
abbrev pub threats_of : ℕ → List Threat → ℕ
threats_of m threats = count_where (λ (t : Threat). t.machine_id == m) threats

abbrev pub commands_of : ℕ → List Command → ℕ
commands_of m commands = count_where (λ (c : Command). c.machine_id == m) commands

abbrev pub interventions_of : ℕ → List Intervention → ℕ
interventions_of m interventions =
    count_where (λ (i : Intervention). i.machine_id == m) interventions

-- How many rows a poste has where the source's went to the target
abbrev pub moved_count : ℕ → ℕ → (ℕ → ℕ) → ℕ → ℕ
moved_count source target n m =
    if m == target then n target + n source else if m == source then 0 else n m

-- A row but for the postes that it names
abbrev pub of_nobody : Command → Command
of_nobody c = record c { machine_id = 0; relay_machine_id = none }

abbrev pub by_nobody : Intervention → Intervention
by_nobody i = record i { machine_id = 0 }

-- The postes of a table, and those that are not the source
abbrev pub ids : List Machine → List ℕ
ids machines = map (λ (m : Machine). m.id) machines

abbrev pub others : ℕ → List Machine → List Machine
others source machines = select (λ (m : Machine). not (m.id == source)) machines

-- The tables of one fleet moved into those of another: whose the rows are and what they say
pub record HasMoved (source target : ℕ) (fleet fleet' : Fleet) : Type 0 where
  pub postes : ids fleet'.machines ≡ ids (others source fleet.machines)
  pub commands :
      (m : ℕ)
      → commands_of m fleet'.commands
        ≡ moved_count source target (λ k. commands_of k fleet.commands) m
  pub commands_said : map of_nobody fleet'.commands ≡ map of_nobody fleet.commands
  pub interventions :
      (m : ℕ)
      → interventions_of m fleet'.interventions
        ≡ moved_count source target (λ k. interventions_of k fleet.interventions) m
  pub interventions_said : map by_nobody fleet'.interventions ≡ map by_nobody fleet.interventions
  pub checks :
      (m : ℕ)
      → checks_of m fleet'.checks ≡ moved_count source target (λ k. checks_of k fleet.checks) m
  pub seconds :
      (m : ℕ) (h : Instant)
      → seconds_of fleet'.uptimes m h ≡ (
          if m == source
          then 0
          else if m == target
          then cap (seconds_of fleet.uptimes target h + seconds_of fleet.uptimes source h)
          else seconds_of fleet.uptimes m h)

-- What still names the source elsewhere: its row, its detections, and what it relayed
pub record IsGone (source : ℕ) (fleet : Fleet) : Type 0 where
  pub row : any (λ (m : Machine). m.id == source) fleet.machines ≡ false
  pub threats : threats_of source fleet.threats ≡ 0
  pub relayed : any (λ (c : Command). eq_value c.relay_machine_id source) fleet.commands ≡ false

module _ (source target : ℕ) (ne : (source == target) ≡ false) where
  pub commands-moved :
      (commands : List Command) (m : ℕ)
      → commands_of m (map (moved_command source target) commands)
        ≡ moved_count source target (λ k. commands_of k commands) m
  unfolding moved_command
  commands-moved [] m = ground arith
  commands-moved (c ∷ commands) m = ground (arith, ne, commands-moved commands m)

  pub interventions-moved :
      (interventions : List Intervention) (m : ℕ)
      → interventions_of m (map (moved_intervention source target) interventions)
        ≡ moved_count source target (λ k. interventions_of k interventions) m
  unfolding moved_intervention
  interventions-moved [] m = ground arith
  interventions-moved (i ∷ interventions) m =
      ground (arith, ne, interventions-moved interventions m)

  pub threats-left :
      (threats : List Threat) → threats_of source (map (moved_threat source target) threats) ≡ 0
  threats-left [] = refl
  threats-left (t ∷ threats) = ground (arith, ne, threats-left threats)

  pub none_relayed :
      (commands : List Command)
      → any
          (λ (c : Command). eq_value c.relay_machine_id source)
          (map (moved_command source target) commands)
        ≡ false
  unfolding moved_command
  none_relayed [] = refl
  none_relayed (c ∷ commands) = elim (Bool-cases (eq_value c.relay_machine_id source)) [
    | inl named ↦ rw named (none_relayed commands)
    | inr other ↦ ground (arith, other, none_relayed commands)
  ]

pub commands_said :
    (source target : ℕ) (commands : List Command)
    → map of_nobody (map (moved_command source target) commands) ≡ map of_nobody commands
unfolding moved_command
commands_said source target [] = refl
commands_said source target (c ∷ commands) =
    ap₂ (λ x xs. x ∷ xs) (same c) (commands_said source target commands)
  where
    same : (c : Command) → of_nobody (moved_command source target c) ≡ of_nobody c
    same c = elim (Bool-cases (eq_value c.relay_machine_id source)) [
      | inl named ↦ elim (Bool-cases (c.machine_id == source)) [
        | inl own ↦ rw (named, own) refl
        | inr other ↦ rw (named, other) refl
      ]
      | inr apart ↦ elim (Bool-cases (c.machine_id == source)) [
        | inl own ↦ rw (apart, own) refl
        | inr other ↦ rw (apart, other) refl
      ]
    ]

pub interventions_said :
    (source target : ℕ) (interventions : List Intervention)
    → map by_nobody (map (moved_intervention source target) interventions)
      ≡ map by_nobody interventions
unfolding moved_intervention
interventions_said source target [] = refl
interventions_said source target (i ∷ interventions) =
    ap₂ (λ x xs. x ∷ xs) (same i) (interventions_said source target interventions)
  where
    same : (i : Intervention) → by_nobody (moved_intervention source target i) ≡ by_nobody i
    same i = elim (Bool-cases (i.machine_id == source)) [
      | inl own ↦ rw own refl
      | inr other ↦ rw other refl
    ]

pub postes_kept :
    (source target : Machine) (now : Instant) (machines : List Machine)
    → ids (
        map
          (λ (m : Machine). if m.id == target.id then kept_row source now m else m)
          (others source.id machines))
      ≡ ids (others source.id machines)
unfolding kept_row
postes_kept source target now [] = refl
postes_kept source target now (m ∷ machines) = elim (Bool-cases (m.id == source.id)) [
  | inl gone ↦ rw gone (postes_kept source target now machines)
  | inr stays ↦ rw stays (ap₂ (λ x xs. x ∷ xs) (same m) (postes_kept source target now machines))
]
  where
    same : (m : Machine) → (if m.id == target.id then kept_row source now m else m).id ≡ m.id
    same m = elim (Bool-cases (m.id == target.id)) [
      | inl kept ↦ rw kept refl
      | inr other ↦ rw other refl
    ]

pub row_gone :
    (source target : Machine) (now : Instant) (machines : List Machine)
    → (source.id == target.id) ≡ false
    → any
        (λ (m : Machine). m.id == source.id)
        (map
          (λ (m : Machine). if m.id == target.id then kept_row source now m else m)
          (select (λ (m : Machine). not (m.id == source.id)) machines))
      ≡ false
unfolding kept_row
row_gone source target now [] ne = refl
row_gone source target now (m ∷ machines) ne =
    ground (arith, ne, row_gone source target now machines ne)
