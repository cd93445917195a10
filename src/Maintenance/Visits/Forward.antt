-- ===== src/Maintenance/Visits/Forward.antt =====
-- A visit never steps back on a poste's cycle.
use natimai_tiai.Prelude.{
  ◌+◌, ◌≡◌, ◌≤◌, ◌<◌, Option, none, some, arith, max, Option-cases, ◌⊎◌, inl, inr,
}
use natimai_tiai.Prelude.Time.{Instant, days}
use natimai_tiai.Machine.{Machine}
use natimai_tiai.Room.{Room}
use natimai_tiai.Maintenance.Policy.{MaintenancePolicy, ok, resolve, cycle_expr}
use natimai_tiai.Maintenance.Policy.Agreement.{cycle_expr-congr, resolve_visited}
use natimai_tiai.Maintenance.Visits.{advance}

-- The later of a known visit and this one.
abbrev pub latest : Option Instant → Instant → Instant
latest none performed_at = performed_at
latest (some last) performed_at = max last performed_at

module _ (performed_at now : Instant) (m : Machine) where
  -- After a visit the known one is the later of the two.
  last-advance :
      (advance performed_at now m).last_maintenance_at
      ≡ some (latest m.last_maintenance_at performed_at)
  unfolding advance
  last-advance = elim (Option-cases m.last_maintenance_at) [
    | inl e ↦ ground arith
    | inr (a, e) ↦ ground arith
  ]

  cycle-advance : (advance performed_at now m).maintenance_cycle_days ≡ m.maintenance_cycle_days
  unfolding advance
  cycle-advance = ground arith

module _ (policy : MaintenancePolicy) (r : Option Room) (performed_at now : Instant) (m : Machine)
    (cycles : 0 < cycle_expr policy m r) where
  cycle_expr-advance : cycle_expr policy (advance performed_at now m) r ≡ cycle_expr policy m r
  cycle_expr-advance =
      cycle_expr-congr policy m (advance performed_at now m) r (cycle-advance performed_at now m)

  performed-le-latest : performed_at ≤ latest m.last_maintenance_at performed_at
  performed-le-latest = elim (Option-cases m.last_maintenance_at) [
    | inl e ↦ rw e (omega arith)
    | inr (a, e) ↦ rw e (omega arith)
  ]

  known-le-latest :
      (last : Instant)
      → m.last_maintenance_at ≡ some last
      → last ≤ latest m.last_maintenance_at performed_at
  known-le-latest last known = rw known (omega arith)

  cleared :
      (t : Instant)
      → t + days policy.due_soon_days
        < latest m.last_maintenance_at performed_at + days (cycle_expr policy m r)
      → (resolve (advance performed_at now m) r policy t).state ≡ ok
  cleared t early =
      resolve_visited policy t (advance performed_at now m) r
        (latest m.last_maintenance_at performed_at) (last-advance performed_at now m)
        (rw cycle_expr-advance cycles) (rw cycle_expr-advance early)

  -- Recording a visit, backdated or not, of a poste that has a cycle: at every instant at which the
  -- cycle, counted from this visit or from the one known before, still leaves more than the warning
  -- delay, the poste is neither overdue nor due soon; so a backdated visit never steps the cycle back.
  pub visit_clears :
      (visited t : Instant)
      → (visited ≡ performed_at) ⊎ (m.last_maintenance_at ≡ some visited)
      → t + days policy.due_soon_days < visited + days (cycle_expr policy m r)
      → (resolve (advance performed_at now m) r policy t).state ≡ ok
  visit_clears visited t (inl this) early = cleared t (omega (arith, this, performed-le-latest))
  visit_clears visited t (inr known) early =
      cleared t (omega (arith, known-le-latest visited known))
