-- ===== src/Machine/Merge.antt =====
-- backend/app/features/machine/crud.py, `merge_into`: the record of a duplicate poste goes into the
-- one to keep, with move_to of the interventions, the checks and the usage. The tables that hold no
-- history (the pending Windows updates, the inventory) go with the row of the source and are left
-- out.
pub mod Keeps
pub mod Moved
use natimai_tiai.Prelude.{
  ℕ, Bool, true, false, not, ◌&&◌, Option, none, some, String, List, [], ◌∷◌, map, any, select,
  eq_value, coalesce, ltb, nat_eq, ◌==◌, if◌then◌else◌,
}
use natimai_tiai.Prelude.Time.{Instant}
use natimai_tiai.Machine.{Machine}
use natimai_tiai.Command.{Command}
use natimai_tiai.Threat.{Threat, has_detection}
use natimai_tiai.Check.{MachineCheck}
use natimai_tiai.Maintenance.Visits.{Intervention}
use natimai_tiai.Usage.Counters.{Uptime}

-- The tables that a merge writes
pub record Fleet : Type 0 where
  pub machines : List Machine
  pub commands : List Command
  pub threats : List Threat
  pub interventions : List Intervention
  pub checks : List MachineCheck
  pub uptimes : List Uptime

-- The commands under the target, and no relay that is gone (ON DELETE SET NULL)
pub moved_command : ℕ → ℕ → Command → Command
moved_command source target c =
    let owned = (if c.machine_id == source then record c { machine_id = target } else c) in
    if eq_value c.relay_machine_id source then record owned { relay_machine_id = none } else owned

-- The WHERE of the DELETE: a detection of the source that the target has too
abbrev pub is_held : ℕ → List Threat → Option String → Bool
is_held target threats none = false
is_held target threats (some d) = any (has_detection target d) threats

abbrev pub collides : ℕ → ℕ → List Threat → Threat → Bool
collides source target threats t = t.machine_id == source && is_held target threats t.detection_id

abbrev pub moved_threat : ℕ → ℕ → Threat → Threat
moved_threat source target t =
    if t.machine_id == source then record t { machine_id = target } else t

pub merge_threats : List Threat → ℕ → ℕ → List Threat
merge_threats threats source target =
    map (moved_threat source target) (select (λ t. not (collides source target threats t)) threats)

-- intervention/crud.py, `move_to`, on a row
pub moved_intervention : ℕ → ℕ → Intervention → Intervention
moved_intervention source target i =
    if i.machine_id == source then record i { machine_id = target } else i

-- The later of two visits, the target's where they are one
abbrev pub latest_visit : Option Instant → Option Instant → Option Instant
latest_visit target none = target
latest_visit none (some s) = some s
latest_visit (some t) (some s) = if ltb t s then some s else some t

-- The kept row
pub kept_row : Machine → Instant → Machine → Machine
kept_row source now target = record target {
  last_seen = if ltb target.last_seen source.last_seen then source.last_seen else target.last_seen;
  room_id = coalesce target.room_id source.room_id;
  last_maintenance_at = latest_visit target.last_maintenance_at source.last_maintenance_at;
  needs_verification = false;
  updated_at = now;
}

-- The tables after a merge, with the counters as they come out
pub merged : Fleet → Machine → Machine → Instant → List Uptime → Fleet
merged fleet target source now uptimes = record {
  machines =
      map (λ (m : Machine). if m.id == target.id then kept_row source now m else m)
        (select (λ (m : Machine). not (m.id == source.id)) fleet.machines);
  commands = map (moved_command source.id target.id) fleet.commands;
  threats = merge_threats fleet.threats source.id target.id;
  interventions = map (moved_intervention source.id target.id) fleet.interventions;
  checks = natimai_tiai.Check.move_to fleet.checks source.id target.id now;
  uptimes = uptimes;
}

-- `merge_into`; none where a statement is refused
pub merge_into : Fleet → Machine → Machine → Instant → Option Fleet
merge_into fleet target source now =
    elim (natimai_tiai.Usage.Counters.move_to fleet.uptimes source.id target.id) [
      | none ↦ none
      | some uptimes ↦ some (merged fleet target source now uptimes)
    ]
