-- ===== src/Command/Result.antt =====
-- backend/app/api/routes/agent.py, `command_result`: what an agent's report does to a command. The
-- report's texts come after the validator that bounds them; `show_id` prints a UUID.
use natimai_tiai.Prelude.{
  ℕ, Bool, true, false, ◌&&◌, not, Option, none, some, String, List, [], ◌∷◌, ◌==◌, nat_eq,
  eq_value, if◌then◌else◌,
}
use Prim.Native.String.{◌++◌ as text_append}
use natimai_tiai.Prelude.Time.{Instant}
use natimai_tiai.Machine.{Machine}
use natimai_tiai.Command.{Command, CommandStatus, running, is_terminal, is_reportable}

pub record Report : Type 0 where
  pub status : CommandStatus
  pub output : Option String
  pub error : Option String

-- A text that Python reads as true.
abbrev pub truthy : Option String → Bool
truthy none = false
truthy (some String.[]) = false
truthy (some (String.◌∷◌ c s)) = true

abbrev pub is_running : CommandStatus → Bool
is_running running = true
is_running _ = false

-- The answer of the route: 422 from the validator of `status`, or the `status` of the reply.
pub data Reply : Type 0 where
  unprocessable ignored ok : Reply

module _ (show_id : ℕ → String) where
  -- `wol/relay.py`, `relay_label` of a machine: `relay.hostname or str(relay.id)`
  pub relay_label : Machine → String
  relay_label m = elim m.hostname [
    | none ↦ show_id m.id
    | some h ↦ if truthy (some h) then h else show_id m.id
  ]

  -- `f"Relayé par {who} — {text}"`, for a text that is there
  unfoldable pub signed : Bool → Machine → Option String → Option String
  signed relayed m none = none
  signed relayed m (some t) =
      if relayed && truthy (some t)
      then some (text_append "Relayé par " (text_append (relay_label m) (text_append " — " t)))
      else some t

  abbrev pub is_relayed : Machine → Command → Bool
  is_relayed m c = eq_value c.relay_machine_id m.id

  -- The rows that the handler writes: one that starts, and one with a verdict.
  unfoldable pub started_row : Instant → Command → Command
  started_row now c = record c { status = running; started_at = some now }

  unfoldable pub verdict_row : Machine → Report → Instant → Command → Command
  verdict_row m payload now c = record c {
    status = payload.status;
    result_output = signed (is_relayed m c) m payload.output;
    error = signed (is_relayed m c) m payload.error;
    finished_at = some now;
  }

  -- The handler on the row it fetched: `none` for a reply "ignored".
  unfoldable pub report : Machine → Report → Instant → Command → Option Command
  report m payload now c =
      let relayed = is_relayed m c in
      if not (c.machine_id == m.id) && not relayed
      then none
      else if relayed && is_terminal c.status
      then none
      else if is_running payload.status
      then (if is_terminal c.status then none else some (started_row now c))
      else some (verdict_row m payload now c)

  -- The write of the row with this identifier, none without one.
  pub report_row : Machine → Report → Instant → ℕ → List Command → Option (List Command)
  unfolding report
  report_row m payload now id [] = none
  report_row m payload now id (c ∷ commands) =
      let rest = report_row m payload now id commands in
      if c.id == id
      then (elim (report m payload now c) [ none ↦ none | some c' ↦ some (c' ∷ commands) ])
      else elim rest [ none ↦ none | some commands' ↦ some (c ∷ commands') ]

  -- `command_result`, the validator `_reportable` included
  pub command_result : Machine → ℕ → Report → Instant → List Command → Reply × List Command
  unfolding report_row
  command_result m id payload now commands =
      if is_reportable payload.status
      then (elim (report_row m payload now id commands) [
        | none ↦ (ignored, commands)
        | some commands' ↦ (ok, commands')
      ])
      else (unprocessable, commands)
