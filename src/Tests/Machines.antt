-- ===== src/Tests/Machines.antt =====
-- A registry with one enrolled poste, a request that names it or a new one, and its duplicate.
use natimai_tiai.Prelude.{
  if◌then◌else◌, arith, ==_sound, List, ◌&&◌, ℕ, ◌≡◌, refl, true, false, not, ◌||◌, none, some,
  String, [], ◌∷◌, map, select, ◌==◌, string_eq, nat_eq,
}
use natimai_tiai.Prelude.Int.{pos}
use natimai_tiai.Machine.Heartbeat.{HeartbeatRequest}
use natimai_tiai.Machine.{Machine, new_machine}
use natimai_tiai.Machine.Enrollment.{
  EnrollRequest, Registry, enroll, enroll_new, enrolled, machine_by_uuid,
}
use natimai_tiai.Machine.Enrollment.Takeover.{credentials, credentials_of, enroll-credentials}
use natimai_tiai.Machine.Enrollment.Minted.{accepts, enroll-minted}
use natimai_tiai.Machine.Status.{
  status_clause, up_to_date, recompute_one, recompute_up_to_date, compute_is_up_to_date,
}
use natimai_tiai.Machine.Status.Filters.{recompute-agrees}
use natimai_tiai.Machine.Merge.{Fleet, merge_into}
use natimai_tiai.Machine.Merge.Keeps.{IsSound, merge-IsSound}
use natimai_tiai.Machine.Merge.Moved.{HasMoved, IsGone}
use natimai_tiai.Threat.{Threat, ThreatReport}
use natimai_tiai.Threat.Rows.{knows}
use natimai_tiai.Threat.Announced.{Poll, announced, ever_reported, announced-once}

abbrev poste : Machine
poste = record (new_machine 1 "a-poste" 0) { token_hash = some "digest-of-old" }

abbrev registry : Registry
registry = record { machines = poste ∷ []; audit_log = [] }

abbrev request : String → EnrollRequest
request uuid = record {
  machine_uuid = uuid;
  hostname = some "PC-1";
  domain = none;
  location = none;
  os_version = none;
  agent_version = none;
  fingerprint = none;
}

-- The texts of the examples are their own digests.
abbrev same : String → String
same s = s

abbrev show : ℕ → String
show n = "a-number"

found : machine_by_uuid registry.machines "a-poste" ≡ some poste
unfolding machine_by_uuid
found = refl

enroll-credentials_example :
    credentials_of (
      machine_by_uuid
        (enroll same same same show true
          (request "a-poste")
          50
          "10.0.0.9"
          2
          "stolen"
          registry).1.machines
        "a-poste")
    ≡ some (credentials poste)
enroll-credentials_example =
    enroll-credentials same same same show (request "a-poste") 50 "10.0.0.9" 2 "stolen" registry
      "a-poste" poste found refl

answered :
    (enroll same same same show true (request "new-poste") 50 "10.0.0.9" 2 "fresh" registry).0
    ≡ enrolled 2 "fresh"
unfolding enroll enroll_new machine_by_uuid
answered = refl

enroll-minted_example :
    accepts same
      (machine_by_uuid
        (enroll same same same show true
          (request "new-poste")
          50
          "10.0.0.9"
          2
          "fresh"
          registry).1.machines
        "new-poste")
      "fresh"
    ≡ (same "fresh" == same "fresh")
enroll-minted_example =
    enroll-minted same same same show true (request "new-poste") 50 "10.0.0.9" 2 "fresh" registry 2
      "fresh" "fresh" answered

recompute-agrees_example :
    (select (status_clause up_to_date 90 30) (recompute_up_to_date 7 (poste ∷ [])).0
      ≡ map (recompute_one 7) (select (compute_is_up_to_date 7) (poste ∷ [])))
    × ((recompute_up_to_date 7 (recompute_up_to_date 7 (poste ∷ [])).0).1 ≡ 0)
recompute-agrees_example = recompute-agrees (poste ∷ []) 7 30 90

abbrev double : Machine
double = new_machine 2 "its-double" 0

abbrev report : ThreatReport
report = record {
  detection_id = some "d";
  threat_name = none;
  severity = none;
  category = none;
  status = some "active";
  action_taken = none;
  detected_at = none;
}

abbrev detection : ℕ → Threat
detection m = record {
  id = m;
  machine_id = m;
  detection_id = some "d";
  threat_name = none;
  severity = none;
  category = none;
  status = none;
  action_taken = none;
  detected_at = none;
  raw = report;
}

abbrev fleet : Fleet
fleet = record {
  machines = poste ∷ double ∷ [];
  commands = [];
  threats = detection 1 ∷ detection 2 ∷ [];
  interventions = [];
  checks = [];
  uptimes = record { machine_id = 2; hour = 0; seconds_on = 60 } ∷ [];
}

fleet-IsSound : IsSound fleet
fleet-IsSound = record {
  detections_once = λ m d. ground (arith, ==_sound "d" d);
  checks_once = λ m. omega arith;
  counters = record { keyed = refl; capped = refl };
}

merge-IsSound_example :
    (fleet' : Fleet) × (merge_into fleet poste double 90 ≡ some fleet')
    × IsSound fleet'
    × ((d : String)
        → (knows 1 d fleet'.threats ≡ (knows 1 d fleet.threats || knows 2 d fleet.threats))
          × (knows 2 d fleet'.threats ≡ false))
    × HasMoved 2 1 fleet fleet'
    × IsGone 2 fleet'
merge-IsSound_example = merge-IsSound fleet poste double 90 refl fleet-IsSound

abbrev polls : List Poll
polls =
    record { machine_id = 1; fresh = 10; reports = report ∷ report ∷ [] }
    ∷ record {
      machine_id = 1;
      fresh = 20;
      reports = record report { status = some "removed" } ∷ [];
    }
    ∷ []

announced-once_example :
    announced 1 "d" polls [] ≡ (if not (knows 1 "d" []) && ever_reported 1 "d" polls then 1 else 0)
announced-once_example = announced-once polls [] 1 "d" refl

abbrev beat : HeartbeatRequest
beat = record {
  hostname = none;
  domain = none;
  location = none;
  ip_address = none;
  mac_address = none;
  ip_prefix_length = none;
  os_version = none;
  agent_version = none;
  defender = some (record {
    rtp_enabled = some true;
    av_enabled = some true;
    signature_version = none;
    signature_last_updated = none;
    signature_age_days = some (pos 2);
    last_quick_scan = none;
    last_full_scan = none;
    running_mode = none;
  });
  av_product = none;
  session = none;
  fingerprint = none;
  threats = [];
}
