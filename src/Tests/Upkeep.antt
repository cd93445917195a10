-- ===== src/Tests/Upkeep.antt =====
-- One poste with a yearly cycle, and one whose heartbeats cross an hour.
use natimai_tiai.Prelude.{
  ℕ, ◌+◌, ◌-◌, ◌*◌, ◌/◌, ◌<◌, ◌≡◌, inl, refl, none, some, List, [], ◌∷◌, arith, if◌then◌else◌, ◌==◌,
  nat_eq,
}
use natimai_tiai.Prelude.Time.{Instant, days, second}
use natimai_tiai.Machine.{Machine, new_machine}
use natimai_tiai.Maintenance.Policy.{
  MaintenancePolicy, overdue, ok, resolve, cycle_expr, state_clause,
}
use natimai_tiai.Maintenance.Policy.Agreement.{same_state, state_clause-resolve}
use natimai_tiai.Maintenance.Visits.{advance}
use natimai_tiai.Maintenance.Visits.Forward.{visit_clears}
use natimai_tiai.Usage.Accounting.{credit_for_gap, hour_start}
use natimai_tiai.Usage.Accounting.Telescope.{IsSpread, credit-IsSpread}
use natimai_tiai.Usage.Accounting.Runs.{run_total, run_telescopes}
use natimai_tiai.Usage.Counters.{Uptime, record_credits, move_to, cap}
use natimai_tiai.Usage.Counters.Rows.{seconds_of, IsValid}
use natimai_tiai.Usage.Counters.Heartbeat.{credit_at, record_heartbeat}
use natimai_tiai.Usage.Counters.Merge.{merge_counters}

abbrev policy : MaintenancePolicy
policy = record { cycle_days = 365; owner_id = none; due_soon_days = 30 }

abbrev poste : Machine
poste = new_machine 7 "a-poste" 0

state_clause-resolve_example :
    state_clause overdue policy (days 400) poste none
    ≡ same_state (resolve poste none policy (days 400)).state overdue
state_clause-resolve_example = state_clause-resolve policy (days 400) poste none overdue

yearly : 0 < cycle_expr policy poste none
unfolding cycle_expr
yearly = omega arith

early : days 500 + days 30 < days 390 + days (cycle_expr policy poste none)
unfolding cycle_expr
early = omega arith

visit_clears_example :
    (resolve (advance (days 390) (days 400) poste) none policy (days 500)).state ≡ ok
visit_clears_example =
    visit_clears policy none (days 390) (days 400) poste yearly (days 390) (days 500) (inl refl)
      early

abbrev beat : Instant
beat = 3590 * second

abbrev next : Instant
next = 3620 * second

credit-IsSpread_example : IsSpread (hour_start beat) next (credit_for_gap beat next 300)
credit-IsSpread_example = credit-IsSpread 300 beat next

run_telescopes_example : run_total 300 beat (next ∷ []) ≡ next / second - beat / second
run_telescopes_example = run_telescopes 300 beat (next ∷ []) refl

abbrev table : List Uptime
table =
    record { machine_id = 7; hour = 0; seconds_on = 3595 }
    ∷ record { machine_id = 8; hour = 0; seconds_on = 20 }
    ∷ []

table-IsValid : IsValid table
table-IsValid = record { keyed = refl; capped = refl }

record_heartbeat_example :
    (table' : List Uptime) × (record_credits table 7 (credit_for_gap beat next 300) ≡ some table')
    × IsValid table'
    × ((k : ℕ) (h : Instant)
        → seconds_of table' k h ≡ (
            if k == 7
            then cap (seconds_of table k h + credit_at (credit_for_gap beat next 300) h)
            else seconds_of table k h))
record_heartbeat_example = record_heartbeat table 7 beat next 300 table-IsValid

merge_counters_example :
    (table' : List Uptime) × (move_to table 8 7 ≡ some table')
    × IsValid table'
    × ((m : ℕ) (h : Instant)
        → seconds_of table' m h ≡ (
            if m == 8
            then 0
            else if m == 7
            then cap (seconds_of table 7 h + seconds_of table 8 h)
            else seconds_of table m h))
merge_counters_example = merge_counters 8 7 table (omega arith) table-IsValid
