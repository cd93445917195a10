-- ===== src/Command/Delivery.antt =====
-- backend/app/api/routes/agent.py, `heartbeat`, the part from `mark_expired` to the wakes: what an
-- agent that contacts the server is handed, and what becomes of its rows. A package is what
-- `_package_deliveries` reads of it: `Package` is the delivery, by its identifier.
pub mod Ends
use natimai_tiai.Prelude.{
  ℕ, Bool, true, false, ◌&&◌, ◌||◌, not, Option, none, some, String, List, [], ◌∷◌, ◌++◌, map,
  select, any, contains, ltb, is_null, in_values, ◌==◌, nat_eq, if◌then◌else◌,
}
use natimai_tiai.Prelude.Time.{Instant}
use natimai_tiai.Machine.{Machine}
use natimai_tiai.Command.{Command, CommandType, delivered, failed, is_wake, is_pending, is_package}
use natimai_tiai.Command.Queue.{mark_expired}
use natimai_tiai.Wol.Packet.{Text}
use natimai_tiai.Wol.Relay.{Settings}
use natimai_tiai.Wol.Relay.Claims.{ClaimedWake, claim_wakes, close_wakes_for_awake_machine}

-- The WHERE of the heartbeat's pending rows
unfoldable pub is_due : Machine → Instant → Command → Bool
is_due machine now c =
    c.machine_id == machine.id
    && is_pending c.status
    && ltb now c.expires_at
    && not (is_wake c.type)

unfoldable pub deliver_row : Machine → Instant → Command → Command
deliver_row machine now c =
    if is_due machine now c then record c { status = delivered; delivered_at = some now } else c

-- The test of the comprehension: whether a pending row is handed out.
pub is_handed : List ℕ → Command → Bool
is_handed deliveries c =
    is_null c.package_id || in_values c.package_id deliveries || not (is_package c.type)

-- The test of the loop behind it: whether a pending row is closed.
pub is_orphan : List ℕ → Command → Bool
is_orphan deliveries c = is_package c.type && not (in_values c.package_id deliveries)

-- The two loops on one row: `deliveries` names the packages that still exist.
unfoldable pub serve_row : List ℕ → Machine → Instant → Command → Command
serve_row deliveries machine now c =
    if is_due machine now c && is_orphan deliveries c
    then record (deliver_row machine now c) {
      status = failed;
      error = some "Paquet supprimé avant l'exécution";
      finished_at = some now;
    }
    else deliver_row machine now c

-- `CommandOut`
pub record CommandOut {ℓ} (Package : Type ℓ) : Type ℓ where
  pub id : ℕ
  pub type : CommandType
  pub «package» : Option Package
  pub target_mac : Option Text

module _ {ℓ} {Package : Type ℓ} (package_id : Package → ℕ) where
  -- `deliveries.get(i)`
  pub delivery : List Package → Option ℕ → Option Package
  delivery packages none = none
  delivery [] (some i) = none
  delivery (p ∷ packages) (some i) =
      let rest = delivery packages (some i) in if package_id p == i then some p else rest

  abbrev command_out : List Package → Command → CommandOut Package
  command_out packages c = record {
    id = c.id;
    type = c.type;
    «package» = delivery packages c.package_id;
    target_mac = none;
  }

  pub own_commands : List Package → Machine → Instant → List Command → List (CommandOut Package)
  own_commands packages machine now commands =
      map (command_out packages)
        (select (λ c. is_due machine now c && is_handed (map package_id packages) c) commands)

  abbrev wake_out : ClaimedWake → CommandOut Package
  wake_out w = record {
    id = w.command.id;
    type = w.command.type;
    «package» = none;
    target_mac = some w.target_mac;
  }

  -- The commands of the response, and the queue that is committed with it. `now` is read after the
  -- sweep, whose own clock is `swept_at`; `back_online` words the end of a wake.
  pub heartbeat_commands :
      Bool
      → Settings
      → String
      → List Package
      → List Machine
      → Machine
      → Instant
      → Instant
      → List Command
      → List (CommandOut Package) × List Command
  heartbeat_commands wol_relay_enabled settings back_online packages machines machine swept_at now
        commands =
      let swept = (mark_expired commands (some machine.id) swept_at).0 in
      let own = own_commands packages machine now swept in
      let served = map (serve_row (map package_id packages) machine now) swept in
      if wol_relay_enabled
      then (let awake = (close_wakes_for_awake_machine back_online machine now served).0 in
          let (wakes, claimed) = claim_wakes settings machines machine now awake in
          (own ++ map wake_out wakes, claimed))
      else (own, served)
