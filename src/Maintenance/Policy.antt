-- ===== src/Maintenance/Policy.antt =====
-- backend/app/features/maintenance/policy.py: the cycle and the owner that a poste resolves to, and
-- whether it is due; once in Python (`resolve`) and once as SQL over machines LEFT JOIN rooms. A
-- cycle is a number of days that the API bounds from 0 to 3650. `due - timedelta(...)` stops at 0
-- here, where Python leaves the calendar: the comparison with `now` has the same answer.
pub mod Agreement
use natimai_tiai.Prelude.{
  ℕ, ◌+◌, ◌-◌, Bool, true, false, ◌&&◌, Option, none, some, leb, ltb, coalesce, coalesce_to,
  lt_value, le_value, ge_value, gt_value, if◌then◌else◌,
}
use natimai_tiai.Prelude.Time.{Instant, days}
use natimai_tiai.Machine.{Machine}
use natimai_tiai.Room.{Room}

-- backend/app/features/setting/crud.py
pub record MaintenancePolicy : Type 0 where
  pub cycle_days : ℕ
  pub owner_id : Option ℕ
  pub due_soon_days : ℕ

pub data MaintenanceState : Type 0 where
  excluded overdue due_soon ok : MaintenanceState

pub data Origin : Type 0 where
  machine room global : Origin

pub record Resolved : Type 0 where
  pub cycle_days : ℕ
  pub cycle_origin : Origin
  pub owner_id : Option ℕ
  pub owner_origin : Origin
  pub due_at : Option Instant
  pub state : MaintenanceState

-- A column of the room, NULL without a room.
abbrev pub room_column {ℓ} : {A : Type ℓ} → (Room → Option A) → Option Room → Option A
room_column f none = none
room_column f (some r) = f r

-- The ladder of `resolve` for the cycle: the poste, its room, the parc.
pub resolve_cycle : Option ℕ → Option ℕ → ℕ → ℕ × Origin
resolve_cycle (some c) of_room default = (c, machine)
resolve_cycle none (some c) default = (c, room)
resolve_cycle none none default = (default, global)

-- The same ladder for the owner, who may be nobody.
pub resolve_owner : Option ℕ → Option ℕ → Option ℕ → Option ℕ × Origin
resolve_owner (some o) of_room default = (some o, machine)
resolve_owner none (some o) default = (some o, room)
resolve_owner none none default = (default, global)

pub resolve : Machine → Option Room → MaintenancePolicy → Instant → Resolved
unfolding resolve_cycle resolve_owner
resolve m r policy now =
    let (cycle, cycle_origin) =
      resolve_cycle m.maintenance_cycle_days (room_column (λ x. x.maintenance_cycle_days) r)
        policy.cycle_days in
    let (owner, owner_origin) =
      resolve_owner m.maintenance_owner_id (room_column (λ x. x.maintenance_owner_id) r)
        policy.owner_id in
    let reference = coalesce_to m.last_maintenance_at m.first_seen in
    let due = reference + days cycle in
    if leb cycle 0
    then record {
      cycle_days = cycle;
      cycle_origin = cycle_origin;
      owner_id = owner;
      owner_origin = owner_origin;
      due_at = none;
      state = excluded;
    }
    else record {
      cycle_days = cycle;
      cycle_origin = cycle_origin;
      owner_id = owner;
      owner_origin = owner_origin;
      due_at = some due;
      state =
          if ltb due now
          then overdue
          else if leb (due - days policy.due_soon_days) now
          then due_soon
          else ok;
    }

-- `cycle_expr`, on one row of the join
unfoldable pub cycle_expr : MaintenancePolicy → Machine → Option Room → ℕ
cycle_expr policy m r =
    coalesce_to (coalesce m.maintenance_cycle_days (room_column (λ x. x.maintenance_cycle_days) r))
      policy.cycle_days

-- `due_expr`
pub due_expr : MaintenancePolicy → Machine → Option Room → Option Instant
unfolding cycle_expr
due_expr policy m r =
    let cycle = cycle_expr policy m r in
    let reference = coalesce_to m.last_maintenance_at m.first_seen in
    if leb cycle 0 then none else some (reference + days cycle)

-- `state_clause`
pub state_clause : MaintenanceState → MaintenancePolicy → Instant → Machine → Option Room → Bool
unfolding due_expr
state_clause excluded policy now m r = leb (cycle_expr policy m r) 0
state_clause overdue policy now m r =
    ltb 0 (cycle_expr policy m r) && lt_value (due_expr policy m r) now
state_clause due_soon policy now m r =
    ltb 0 (cycle_expr policy m r)
    && (ge_value (due_expr policy m r) now
        && le_value (due_expr policy m r) (now + days policy.due_soon_days))
state_clause ok policy now m r =
    ltb 0 (cycle_expr policy m r)
    && gt_value (due_expr policy m r) (now + days policy.due_soon_days)
