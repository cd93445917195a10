-- ===== src/Maintenance/Policy/Agreement.antt =====
-- The Python resolution and the SQL expressions are one rule.
use natimai_tiai.Prelude.{◌+◌, ◌≡◌, Bool, true, false, Option, some, arith, ◌<◌}
use natimai_tiai.Prelude.Time.{Instant, days}
use natimai_tiai.Machine.{Machine}
use natimai_tiai.Room.{Room}
use natimai_tiai.Maintenance.Policy.{
  MaintenancePolicy, MaintenanceState, excluded, overdue, due_soon, ok, resolve, cycle_expr,
  due_expr, state_clause,
}

abbrev pub same_state : MaintenanceState → MaintenanceState → Bool
same_state excluded excluded = true
same_state overdue overdue = true
same_state due_soon due_soon = true
same_state ok ok = true
same_state _ _ = false

module _ (policy : MaintenancePolicy) (now : Instant) (m : Machine) (r : Option Room) where
  cycle-resolve : (resolve m r policy now).cycle_days ≡ cycle_expr policy m r
  unfolding resolve cycle_expr
  cycle-resolve = ground arith

  -- The SQL date by which the list sorts is the date of the payload, absent for an excluded poste.
  pub due-resolve : (resolve m r policy now).due_at ≡ due_expr policy m r
  unfolding resolve due_expr
  due-resolve = ground arith

  -- The SQL predicate of a state selects a row exactly when the row's payload shows that state.
  pub state_clause-resolve :
      (state : MaintenanceState)
      → state_clause state policy now m r ≡ same_state (resolve m r policy now).state state
  unfolding resolve state_clause
  state_clause-resolve excluded = ground arith
  state_clause-resolve overdue = ground arith
  state_clause-resolve due_soon = ground arith
  state_clause-resolve ok = ground arith

-- What a write on the poste has to know to tell the state that follows.
pub cycle_expr-congr :
    (policy : MaintenancePolicy) (m m' : Machine) (r : Option Room)
    → m'.maintenance_cycle_days ≡ m.maintenance_cycle_days
    → cycle_expr policy m' r ≡ cycle_expr policy m r
unfolding cycle_expr
cycle_expr-congr policy m m' r e = rw e

pub resolve_visited :
    (policy : MaintenancePolicy) (now : Instant) (m : Machine) (r : Option Room) (last : Instant)
    → m.last_maintenance_at ≡ some last
    → 0 < cycle_expr policy m r
    → now + days policy.due_soon_days < last + days (cycle_expr policy m r)
    → (resolve m r policy now).state ≡ ok
unfolding resolve cycle_expr
resolve_visited policy now m r last e c late = ground arith
