-- ===== src/Tests/Wakes.antt =====
-- Two postes of one site, the second one asleep.
use natimai_tiai.Prelude.{
  none, true, ltb, ◌≤◌, max, String, not, ◌||◌, ℕ, ◌≡◌, refl, some, List, [], ◌∷◌, length, select,
  ◌++◌, is_null, All, arith,
}
use natimai_tiai.Machine.{Machine, new_machine}
use natimai_tiai.Command.{Command, new_command, wake_on_lan, delivered}
use natimai_tiai.Wol.Relay.Queueing.{open_wakes, queue_relayed_wake-single}
use natimai_tiai.Wol.Relay.Claims.Grace.{wake_row-handed}
use natimai_tiai.Wol.Relay.{
  WakeDetail, queue_relayed_wake, wake_row, Settings, shares_wire, same_subnet, may_claim,
}
use natimai_tiai.Wol.Relay.Claims.{
  mac_for, is_claimable, machine_by_id, claimed, claim_wakes, close_wakes_for_awake_machine,
}
use natimai_tiai.Wol.Relay.Claims.Once.{IsRightful, claimed-once, claimed-AreRightful}
use natimai_tiai.Wol.Relay.Claims.Closing.{waits, is_foreign, AllClosed, close_wakes-exactly}
use natimai_tiai.Wol.Address.{to_text}
use natimai_tiai.Wol.Packet.{parse_mac, format_mac, normalize_mac, usable}
use natimai_tiai.Wol.Packet.RoundTrip.{AreBytes, parse-format}

abbrev settings : Settings
settings = record {
  wol_relay_subnet_grace_seconds = 60;
  wol_relay_ttl_minutes = 10;
  offline_after_seconds = 300;
}

abbrev relay : Machine
relay = record (new_machine 1 "a-relay" 0) { location = some "Lycée" }

abbrev other : Machine
other = record (new_machine 3 "another" 0) { location = some "Lycée" }

abbrev asleep : Machine
asleep = record (new_machine 2 "asleep" 0) {
  location = some "Lycée";
  mac_address = some "00:1a:2b:3c:4d:5e";
}

abbrev machines : List Machine
machines = relay ∷ asleep ∷ other ∷ []

abbrev wake : Command
wake = new_command 9 2 wake_on_lan 0 600000000

claimed-once_example :
    claimed settings machines other 60000001
      (claim_wakes settings machines relay 60000000 (wake ∷ [])).1
    ≡ claimed settings machines other 60000001
        (select (λ c. is_null (mac_for settings machines relay 60000000 c)) (wake ∷ []))
claimed-once_example = claimed-once settings machines relay other 60000000 60000001 (wake ∷ [])

claimed-AreRightful_example :
    All
      (IsRightful settings machines relay 60000000)
      (claimed settings machines relay 60000000 (wake ∷ []))
claimed-AreRightful_example = claimed-AreRightful settings machines relay 60000000 (wake ∷ [])

close_wakes-exactly_example :
    let after = (close_wakes_for_awake_machine "on" asleep 70000000 (wake ∷ [])).0 in
    (select (waits "on" asleep) after ≡ [])
    × AllClosed "on" asleep 70000000 (wake ∷ []) after
    × (select (is_foreign "on" asleep) after ≡ select (is_foreign "on" asleep) (wake ∷ []))
    × (length after ≡ 1)
close_wakes-exactly_example = close_wakes-exactly "on" asleep 70000000 (wake ∷ [])

-- The wake above is handed out once the grace has run.
wake_handed :
    mac_for settings machines relay 60000000 wake
    ≡ some (format_mac (0 ∷ 26 ∷ 43 ∷ 60 ∷ 77 ∷ 94 ∷ []))
unfolding mac_for is_claimable machine_by_id may_claim shares_wire same_subnet normalize_mac to_text
    format_mac
wake_handed = refl

abbrev address : List ℕ
address = 0 ∷ 26 ∷ 43 ∷ 60 ∷ 77 ∷ 94 ∷ []

address-AreBytes : AreBytes address
address-AreBytes =
    (omega arith, (omega arith, (omega arith, (omega arith, (omega arith, (omega arith, tt))))))

parse-format_example : parse_mac (some (format_mac address)) ≡ usable (some address)
parse-format_example = parse-format address refl address-AreBytes

abbrev wording : WakeDetail → String
wording detail = "texte"

queue_relayed_wake-single_example :
    let (o, after) =
      queue_relayed_wake wording settings machines (wake ∷ []) asleep none 70000000 10 in
    ((not o.ok || ltb 0 (open_wakes asleep 70000000 after)) ≡ true)
    × (open_wakes asleep 70000000 after ≤ max 1 (open_wakes asleep 70000000 (wake ∷ [])))
queue_relayed_wake-single_example =
    queue_relayed_wake-single wording settings machines (wake ∷ []) asleep none 70000000 10
      (omega arith)

asleep_known : machine_by_id machines 2 ≡ some asleep
unfolding machine_by_id
asleep_known = refl

neighbours : shares_wire relay asleep ≡ true
unfolding shares_wire
neighbours = refl

address_known : normalize_mac (some (to_text "00:1a:2b:3c:4d:5e")) ≡ some (format_mac address)
unfolding normalize_mac to_text format_mac
address_known = refl

abbrev queued : Command
queued = wake_row settings asleep none 0 9

abbrev taken : Command
taken = record queued {
  relay_machine_id = some relay.id;
  status = delivered;
  delivered_at = some 60000000;
}

wake_row-handed_example :
    ((claim_wakes settings machines relay 60000000 ([] ++ queued ∷ [])).0
      ≡ (claim_wakes settings machines relay 60000000 []).0
        ++ record { command = taken; target_mac = format_mac address }
          ∷ (claim_wakes settings machines relay 60000000 []).0)
    × ((claim_wakes settings machines relay 60000000 ([] ++ queued ∷ [])).1
        ≡ (claim_wakes settings machines relay 60000000 []).1
          ++ taken ∷ (claim_wakes settings machines relay 60000000 []).1)
wake_row-handed_example =
    wake_row-handed settings machines relay asleep none 0 60000000 9 (format_mac address) [] []
      asleep_known neighbours address_known (omega arith) (omega arith)

-- Tabs within an address are skipped as `bytes.fromhex` does, so that five bytes are enough.
five_bytes : parse_mac (some (to_text "AABBCC\t\tDDEE")) ≡ some (170 ∷ 187 ∷ 204 ∷ 221 ∷ 238 ∷ [])
unfolding parse_mac to_text
five_bytes = refl
