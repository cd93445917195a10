-- ===== src/Wol/Relay/Claims.antt =====
-- backend/app/features/wol/relay.py, the heartbeat's part: the wakes that a poste takes, and the end
-- of those queued for a poste that is back.
pub mod Once
pub mod Grace
pub mod Closing
use natimai_tiai.Prelude.{
  ℕ, Bool, true, false, ◌&&◌, not, Option, none, some, String, List, [], ◌∷◌, map, count_where, ltb,
  is_null, is_not_null, ◌==◌, nat_eq, if◌then◌else◌,
}
use mathlib.Core.Option.{map as option_map}
use natimai_tiai.Prelude.Time.{Instant}
use natimai_tiai.Machine.{Machine}
use natimai_tiai.Command.{Command, delivered, succeeded, is_wake, is_pending, is_waiting}
use natimai_tiai.Wol.Packet.{Text, normalize_mac}
use natimai_tiai.Wol.Address.{to_text}
use natimai_tiai.Wol.Relay.{Settings, may_claim}

-- JOIN of a primary key: the machine with this identifier
unfoldable pub machine_by_id : List Machine → ℕ → Option Machine
machine_by_id [] i = none
machine_by_id (m ∷ machines) i = if m.id == i then some m else machine_by_id machines i

-- The WHERE of `claim_wakes`
unfoldable pub is_claimable : Machine → Instant → Command → Bool
is_claimable relay now c =
    is_wake c.type
    && is_pending c.status
    && is_null c.relay_machine_id
    && ltb now c.expires_at
    && not (c.machine_id == relay.id)

-- The address that `relay` is handed for a row, none where the row is not for it.
unfoldable pub mac_for : Settings → List Machine → Machine → Instant → Command → Option Text
mac_for settings machines relay now c =
    if is_claimable relay now c
    then (elim (machine_by_id machines c.machine_id) [
      | none ↦ none
      | some target ↦
          if may_claim settings relay target c.created_at now
          then normalize_mac (option_map to_text target.mac_address)
          else none
    ])
    else none

unfoldable pub claimed_row : Machine → Instant → Command → Command
claimed_row relay now c = record c {
  relay_machine_id = some relay.id;
  status = delivered;
  delivered_at = some now;
}

-- `ClaimedWake`
pub record ClaimedWake : Type 0 where
  pub command : Command
  pub target_mac : Text

unfoldable pub claim_row : Settings → List Machine → Machine → Instant → Command → Command
unfolding claimed_row
claim_row settings machines relay now c =
    if is_not_null (mac_for settings machines relay now c) then claimed_row relay now c else c

unfoldable pub claimed :
    Settings → List Machine → Machine → Instant → List Command → List ClaimedWake
unfolding claimed_row
claimed settings machines relay now [] = []
claimed settings machines relay now (c ∷ commands) =
    let rest = claimed settings machines relay now commands in
    elim (mac_for settings machines relay now c) [
      | none ↦ rest
      | some mac ↦ record { command = claimed_row relay now c; target_mac = mac } ∷ rest
    ]

-- `claim_wakes`
unfoldable pub claim_wakes :
    Settings → List Machine → Machine → Instant → List Command → List ClaimedWake × List Command
claim_wakes settings machines relay now commands = (
  claimed settings machines relay now commands,
  map (claim_row settings machines relay now) commands,
)

-- `close_wakes_for_awake_machine`, which words the result as `back_online`
unfoldable pub is_moot : Machine → Command → Bool
is_moot machine c = c.machine_id == machine.id && is_wake c.type && is_waiting c.status

unfoldable pub close_row : String → Machine → Instant → Command → Command
close_row back_online machine now c =
    if is_moot machine c
    then record c { status = succeeded; finished_at = some now; result_output = some back_online }
    else c

pub close_wakes_for_awake_machine : String → Machine → Instant → List Command → List Command × ℕ
close_wakes_for_awake_machine back_online machine now commands =
    (map (close_row back_online machine now) commands, count_where (is_moot machine) commands)
