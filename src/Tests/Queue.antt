-- ===== src/Tests/Queue.antt =====
-- One queue of three rows: a scan that waits, one that is past its time, a deployment without its
-- package.
use natimai_tiai.Prelude.{
  ℕ, ◌+◌, ◌≤◌, ◌≡◌, refl, false, none, some, String, List, [], ◌∷◌, length, contains, count_where,
  if◌then◌else◌, arith, nat_eq,
}
use natimai_tiai.Machine.{Machine, new_machine}
use natimai_tiai.Command.{
  Command, new_command, same_type, quick_scan, package_install, running, succeeded, delivered,
}
use natimai_tiai.Command.Queue.{Order, create_for_machines, is_open, expire_one}
use natimai_tiai.Command.Queue.Dedup.{open_on, occurrences, create_exactly_once}
use natimai_tiai.Command.Result.{Report, report, started_row, verdict_row, signed}
use natimai_tiai.Command.Delivery.{heartbeat_commands}
use natimai_tiai.Command.Delivery.Ends.{heartbeat-once}
use natimai_tiai.Command.Lifecycle.{
  Reach, here, then_step, swept, reported, phase, stamped, IsStamped,
}
use natimai_tiai.Command.Lifecycle.Steps.{reached_row}
use natimai_tiai.Wol.Relay.{Settings}

abbrev scan : Command
scan = new_command 1 7 quick_scan 0 100

abbrev stale : Command
stale = new_command 2 7 quick_scan 0 10

abbrev deployment : Command
deployment = new_command 3 7 package_install 0 100

abbrev queue : List Command
queue = scan ∷ stale ∷ deployment ∷ []

abbrev order : Order
order = record { type = quick_scan; created_by = none; expires_at = 90; package_id = none }

abbrev poste : Machine
poste = new_machine 7 "a-poste" 0

once : (m : ℕ) → occurrences m (7 ∷ 8 ∷ []) ≤ 1
once m = ground arith

single : (m : ℕ) → count_where (open_on order 20 m) queue ≤ 1
unfolding is_open same_type
single m = ground arith

create_exactly_once_example :
    let done = create_for_machines queue (7 ∷ 8 ∷ []) order 20 4 in
    ((m : ℕ)
      → count_where (open_on order 20 m) done.commands
        ≡ (if contains (7 ∷ 8 ∷ []) m then 1 else count_where (open_on order 20 m) queue))
    × (length done.created + length done.skipped ≡ 2)
create_exactly_once_example =
    create_exactly_once order 20 queue (7 ∷ 8 ∷ []) 4 (omega arith) once single

abbrev settings : Settings
settings = record {
  wol_relay_subnet_grace_seconds = 60;
  wol_relay_ttl_minutes = 10;
  offline_after_seconds = 300;
}

abbrev package_id : ℕ → ℕ
package_id p = p

heartbeat-once_example :
    (heartbeat_commands package_id false settings "on" []
      (poste ∷ [])
      poste
      30
      31
      (heartbeat_commands package_id false settings "on" [] (poste ∷ []) poste 20 21 queue).1).0
    ≡ []
heartbeat-once_example =
    heartbeat-once package_id settings "on" [] [] (poste ∷ []) poste 20 21 30 31 queue (omega arith)

abbrev show_id : ℕ → String
show_id n = "7"

abbrev done : Report
done = record { status = succeeded; output = some "fait"; error = none }

abbrev start : Report
start = record { status = running; output = none; error = none }

-- The life of a row that was delivered: it starts, it succeeds, and a late sweep finds it closed.
abbrev handed : Command
handed = record scan { status = delivered; delivered_at = some 20 }

abbrev started : Command
started = record handed { status = running; started_at = some 30 }

abbrev finished : Command
finished = record started { status = succeeded; result_output = some "fait"; finished_at = some 40 }

starts : report show_id poste start 30 handed ≡ some started
unfolding report started_row verdict_row signed
starts = refl

ends : report show_id poste done 40 started ≡ some finished
unfolding report started_row verdict_row signed
ends = refl

life : Reach show_id handed (expire_one none 500 finished)
life =
    then_step handed finished _
      (then_step handed started finished
        (then_step handed handed started (here handed)
          (reported poste start 30 handed started refl starts))
        (reported poste done 40 started finished refl ends))
      (swept none 500 finished)

handed-IsStamped : IsStamped handed
unfolding IsStamped stamped
handed-IsStamped = refl

reached_row_example :
    (phase delivered ≤ phase (expire_one none 500 finished).status)
    × ((expire_one none 500 finished).id ≡ 1)
    × ((expire_one none 500 finished).machine_id ≡ 7)
    × ((expire_one none 500 finished).type ≡ quick_scan)
    × ((expire_one none 500 finished).expires_at ≡ 100)
    × ((expire_one none 500 finished).package_id ≡ none)
    × IsStamped (expire_one none 500 finished)
reached_row_example =
    reached_row show_id handed (expire_one none 500 finished) handed-IsStamped life
