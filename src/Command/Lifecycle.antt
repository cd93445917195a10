-- ===== src/Command/Lifecycle.antt =====
-- The life of one row of the queue: every operation of the server that writes it, as one step, and
-- what holds of a row that any number of steps leads to.
pub mod Steps
use natimai_tiai.Prelude.{
  ℕ, ◌≡◌, ◌≤◌, refl, Bool, true, false, not, Option, none, some, String, List, arith, is_not_null,
  Bool-cases, Option-cases, inl, inr, ap, ◌&&◌, ◌||◌, sym, ◌∙◌,
}
use natimai_tiai.Prelude.Time.{Instant}
use natimai_tiai.Machine.{Machine}
use natimai_tiai.Command.{
  Command, CommandStatus, pending, delivered, running, succeeded, failed, expired, is_terminal,
  is_reportable, is_pending, is_waiting,
}
use natimai_tiai.Command.Queue.{is_stale, expire_one}
use natimai_tiai.Command.Result.{Report, report}
use natimai_tiai.Command.Delivery.{is_due, deliver_row, is_orphan, serve_row}
use natimai_tiai.Wol.Relay.{Settings}
use natimai_tiai.Wol.Relay.Claims.{
  mac_for, is_claimable, claimed_row, claim_row, is_moot, close_row,
}

-- One write of a row.
pub data Step (show_id : ℕ → String) : Command → Command → Type 0 where
  swept : (o : Option ℕ) (now : Instant) (c : Command) → Step show_id c (expire_one o now c)
  served :
      (deliveries : List ℕ) (m : Machine) (now : Instant) (c : Command)
      → Step show_id c (serve_row deliveries m now c)
  claimed :
      (settings : Settings) (machines : List Machine) (relay : Machine) (now : Instant)
      (c : Command)
      → Step show_id c (claim_row settings machines relay now c)
  woken :
      (back_online : String) (m : Machine) (now : Instant) (c : Command)
      → Step show_id c (close_row back_online m now c)
  reported :
      (m : Machine) (p : Report) (now : Instant) (c c' : Command)
      → is_reportable p.status ≡ true
      → report show_id m p now c ≡ some c'
      → Step show_id c c'

pub data Reach (show_id : ℕ → String) : Command → Command → Type 0 where
  here : (c : Command) → Reach show_id c c
  then_step : (c d e : Command) → Reach show_id c d → Step show_id d e → Reach show_id c e

-- How far a command has gone.
abbrev pub phase : CommandStatus → ℕ
phase pending = 0
phase delivered = 1
phase running = 2
phase succeeded = 3
phase failed = 3
phase expired = 3

-- Whether the stamps that a status stands for are there: when it was delivered, started, finished.
unfoldable pub stamped : CommandStatus → Option Instant → Option Instant → Option Instant → Bool
stamped pending d s f = true
stamped delivered d s f = is_not_null d
stamped running d s f = is_not_null s
stamped succeeded d s f = is_not_null f
stamped failed d s f = is_not_null f
stamped expired d s f = true

-- A row's stamps are there when its status says so.
unfoldable pub IsStamped : Command → Type 0
IsStamped c = stamped c.status c.delivered_at c.started_at c.finished_at ≡ true

-- What a step keeps: the phase does not go back, the row is still the same order, and its stamps
-- are there if they were.
pub Follows : Command → Command → Type 0
Follows c d =
    (phase c.status ≤ phase d.status)
    × (d.id ≡ c.id)
    × (d.machine_id ≡ c.machine_id)
    × (d.type ≡ c.type)
    × (d.expires_at ≡ c.expires_at)
    × (d.package_id ≡ c.package_id)
    × (IsStamped c → IsStamped d)
