-- ===== src/Wol/Relay.antt =====
-- backend/app/features/wol/relay.py: a wake is queued on the machine to wake, and the first poste of
-- its site that contacts the server takes it. The settings are those of core/config.py; the texts for
-- the administrator are the values of `WakeDetail`, which `message` words.
pub mod Claims
pub mod Queueing
pub mod Eligibility
use natimai_tiai.Prelude.{
  ℕ, suc, ◌+◌, ◌*◌, Bool, true, false, ◌&&◌, ◌||◌, not, Option, none, some, String, List, [], ◌∷◌,
  ◌++◌, map, select, count_where, leb, ltb, is_null, eq_value, ◌==◌, nat_eq, string_eq, option_eq,
  if◌then◌else◌,
}
use mathlib.Core.Option.{map as option_map}
use natimai_tiai.Prelude.Time.{Instant, seconds}
use natimai_tiai.Machine.Status.{online_clause}
use natimai_tiai.Machine.{Machine}
use natimai_tiai.Command.{
  Command, CommandStatus, pending, delivered, succeeded, failed, wake_on_lan, new_command, is_wake,
  is_pending, is_waiting,
}
use natimai_tiai.Command.Result.{truthy}
use natimai_tiai.Wol.Packet.{Text, normalize_mac}
use natimai_tiai.Wol.Address.{to_text, parse_ipv4, Network, network_of, same_network}

-- `settings` of core/config.py, the three that this module reads; the TTL is in minutes.
pub record Settings : Type 0 where
  pub wol_relay_subnet_grace_seconds : ℕ
  pub wol_relay_ttl_minutes : ℕ
  pub offline_after_seconds : ℕ

-- `shares_wire`
unfoldable pub shares_wire : Machine → Machine → Bool
shares_wire relay target =
    if relay.id == target.id
    then false
    else if truthy target.location
    then relay.location == target.location
    else if truthy target.domain
    then relay.domain == target.domain
    else false

-- `_network`
pub network : Machine → Option Network
unfolding network_of parse_ipv4 to_text
network m = elim m.ip_address [
  | none ↦ none
  | some address ↦ elim m.ip_prefix_length [
    | none ↦ none
    | some prefix_length ↦ network_of (parse_ipv4 (to_text address)) prefix_length
  ]
]

-- `same_subnet`
unfoldable pub same_subnet : Machine → Machine → Bool
unfolding network
same_subnet relay target = same_network (network relay) (network target)

-- `may_claim`
unfoldable pub may_claim : Settings → Machine → Machine → Instant → Instant → Bool
unfolding shares_wire same_subnet
may_claim settings relay target queued_at now =
    if not (shares_wire relay target)
    then false
    else if same_subnet relay target
    then true
    else leb (queued_at + seconds settings.wol_relay_subnet_grace_seconds) now

-- `peer_clause`: none where no peer can be named, else the test of a row
pub peer_clause : Machine → Option (Machine → Bool)
peer_clause target =
    if truthy target.location
    then some (λ m. m.location == target.location)
    else if truthy target.domain
    then some (λ m. m.domain == target.domain)
    else none

-- `count_online_peers`
pub count_online_peers : Settings → List Machine → Machine → Instant → ℕ
unfolding peer_clause
count_online_peers settings machines target now = elim (peer_clause target) [
  | none ↦ 0
  | some peers ↦
      count_where
        (λ (m : Machine).
          peers m
          && not (m.id == target.id)
          && online_clause true now settings.offline_after_seconds m)
        machines
]

-- The WHERE of `open_wake_for`
pub is_open_wake : Machine → Instant → Command → Bool
is_open_wake target now c =
    c.machine_id == target.id && is_wake c.type && is_waiting c.status && ltb now c.expires_at

-- The latest of the rows by `created_at`, none of no row
pub latest : List Command → Option Command
latest [] = none
latest (c ∷ cs) = elim (latest cs) [
  | none ↦ some c
  | some d ↦ if leb d.created_at c.created_at then some c else some d
]

abbrev is_delivered : CommandStatus → Bool
is_delivered delivered = true
is_delivered _ = false

-- `open_wake_for`
pub open_wake_for : List Command → Machine → Instant → Option Command
unfolding latest is_open_wake
open_wake_for commands target now = latest (select (is_open_wake target now) commands)

-- What the administrator reads, with the values that it names.
pub data WakeDetail : Type 0 where
  no_mac no_site : WakeDetail
  already_relayed already_waiting : Instant → WakeDetail
  no_peer : Machine → WakeDetail
  queued : Machine → ℕ → ℕ → WakeDetail

pub record WakeOutcome : Type 0 where
  pub ok : Bool
  pub detail : WakeDetail

-- The row that `queue_relayed_wake` adds, which waits for a relay
pub wake_row : Settings → Machine → Option String → Instant → ℕ → Command
wake_row settings target created_by now fresh =
    record (new_command fresh target.id wake_on_lan now
      (now + seconds (settings.wol_relay_ttl_minutes * 60))) { created_by = created_by }

module _ (message : WakeDetail → String) where
  -- `_closed`: the row that it adds, and its outcome
  pub closed_row : Machine → Option String → Instant → ℕ → Bool → WakeDetail → Command
  closed_row target created_by now fresh ok detail =
      record (new_command fresh target.id wake_on_lan now now) {
        status = if ok then succeeded else failed;
        created_by = created_by;
        started_at = some now;
        finished_at = some now;
        result_output = if ok then some (message detail) else none;
        error = if ok then none else some (message detail);
      }

  pub closed :
      List Command
      → Machine
      → Option String
      → Instant
      → ℕ
      → Bool
      → WakeDetail
      → WakeOutcome × List Command
  unfolding closed_row
  closed commands target created_by now fresh ok detail = (
    record { ok = ok; detail = detail },
    commands ++ closed_row target created_by now fresh ok detail ∷ [],
  )

  -- `queue_relayed_wake`
  pub queue_relayed_wake :
      Settings
      → List Machine
      → List Command
      → Machine
      → Option String
      → Instant
      → ℕ
      → WakeOutcome × List Command
  unfolding closed wake_row peer_clause
  queue_relayed_wake settings machines commands target created_by now fresh =
      let refused = closed commands target created_by now fresh false in
      elim (normalize_mac (option_map to_text target.mac_address)) [
        | none ↦ refused no_mac
        | some mac ↦ elim (peer_clause target) [
          | none ↦ refused no_site
          | some clause ↦ elim (open_wake_for commands target now) [
            | some already ↦ (
              record {
                ok = true;
                detail =
                    if is_delivered already.status
                    then already_relayed already.created_at
                    else already_waiting already.created_at;
              },
              commands,
            )
            | none ↦
                let peers = count_online_peers settings machines target now in
                if peers == 0 then refused (no_peer target) else (
                  record { ok = true; detail = queued target peers settings.wol_relay_ttl_minutes },
                  commands ++ wake_row settings target created_by now fresh ∷ [],
                )
          ]
        ]
      ]
