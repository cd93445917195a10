-- ===== src/Machine/Heartbeat.antt =====
-- backend/app/api/routes/agent.py, `heartbeat`, up to the commands: what a report writes on its
-- poste's row, and the usage and the detections that come with it. The block on the Windows updates
-- is in WindowsUpdate.antt and that on the directory in Room/Directory.antt; the hardware inventory
-- is left out. The texts come after their validators.
pub mod Standing
use natimai_tiai.Prelude.{
  ℕ, Bool, true, false, not, ◌&&◌, ◌||◌, Option, none, some, String, List, coalesce, coalesce_to,
  is_not_null, if◌then◌else◌,
}
use natimai_tiai.Prelude.Int.{ℤ}
use natimai_tiai.Prelude.Time.{Instant}
use natimai_tiai.Machine.{Machine}
use natimai_tiai.Machine.Status.{compute_is_up_to_date}
use natimai_tiai.Machine.Fingerprint.{Fingerprint, is_suspicious_change, store_fingerprint}
use natimai_tiai.Threat.{Threat, ThreatReport, UpsertResult, upsert_threats}
use natimai_tiai.Usage.Accounting.{credit_for_gap}
use natimai_tiai.Usage.Counters.{Uptime, record_credits}

pub record DefenderState : Type 0 where
  pub rtp_enabled : Option Bool
  pub av_enabled : Option Bool
  pub signature_version : Option String
  pub signature_last_updated : Option Instant
  pub signature_age_days : Option ℤ
  pub last_quick_scan : Option Instant
  pub last_full_scan : Option Instant
  pub running_mode : Option String

pub record AvProduct : Type 0 where
  pub name : String
  pub enabled : Option Bool
  pub signatures_up_to_date : Option Bool
  pub is_defender : Bool

pub record SessionState : Type 0 where
  pub user_present : Bool
  pub username : Option String
  pub state : Option String
  pub is_remote : Bool

-- A location that was not reported is no value, one that was is the value to store.
pub record HeartbeatRequest : Type 0 where
  pub hostname : Option String
  pub domain : Option String
  pub location : Option (Option String)
  pub ip_address : Option String
  pub mac_address : Option String
  pub ip_prefix_length : Option ℕ
  pub os_version : Option String
  pub agent_version : Option String
  pub defender : Option DefenderState
  pub av_product : Option AvProduct
  pub session : Option SessionState
  pub fingerprint : Option Fingerprint
  pub threats : List ThreatReport

pub with_identity : HeartbeatRequest → Machine → Machine
with_identity r m = record m {
  hostname = coalesce r.hostname m.hostname;
  domain = coalesce r.domain m.domain;
  location = coalesce_to r.location m.location;
  ip_address = coalesce r.ip_address m.ip_address;
  mac_address = coalesce r.mac_address m.mac_address;
  ip_prefix_length = coalesce r.ip_prefix_length m.ip_prefix_length;
  os_version = coalesce r.os_version m.os_version;
  agent_version = coalesce r.agent_version m.agent_version;
}

pub with_defender : Option DefenderState → Machine → Machine
with_defender none m = m
with_defender (some d) m = record m {
  rtp_enabled = d.rtp_enabled;
  av_enabled = d.av_enabled;
  signature_version = d.signature_version;
  signature_last_updated = d.signature_last_updated;
  signature_age_days = d.signature_age_days;
  last_quick_scan = d.last_quick_scan;
  last_full_scan = d.last_full_scan;
  running_mode = d.running_mode;
}

pub with_av_product : Option AvProduct → Machine → Machine
with_av_product none m = m
with_av_product (some av) m = record m {
  av_product_name = some av.name;
  av_product_enabled = av.enabled;
  av_product_signatures_up_to_date = av.signatures_up_to_date;
  av_product_is_defender = some av.is_defender;
}

-- The verdict, where one of the two blocks came
pub with_verdict : ℕ → HeartbeatRequest → Machine → Machine
with_verdict max_age_days r m =
    if is_not_null r.defender || is_not_null r.av_product
    then record m { is_up_to_date = some (compute_is_up_to_date max_age_days m) }
    else m

pub with_session : Option SessionState → Machine → Machine
with_session none m = m
with_session (some s) m = record m {
  session_user_present = some s.user_present;
  session_username = s.username;
  session_state = s.state;
  session_is_remote = some s.is_remote;
}

module _ (normalized : String → String) where
  pub with_fingerprint : Option Fingerprint → Machine → Machine
  with_fingerprint none m = m
  with_fingerprint (some fp) m = store_fingerprint fp (record m {
    needs_verification = is_suspicious_change normalized m fp || m.needs_verification;
  })

  -- The row that a report leaves, seen at an instant
  pub reported_row : ℕ → HeartbeatRequest → Instant → Machine → Machine
  reported_row max_age_days r seen_at m =
      let told =
        with_verdict max_age_days r
          (with_av_product r.av_product (with_defender r.defender (with_identity r m))) in
      record (with_fingerprint r.fingerprint (with_session r.session told)) {
        last_seen = seen_at;
        updated_at = seen_at;
      }

  -- The row, the usage and the detections; none where the usage is refused. The credit goes from the
  -- last heartbeat to this one, and the first number of the detections is drawn.
  pub heartbeat_state :
      ℕ
      → ℕ
      → HeartbeatRequest
      → Instant
      → ℕ
      → Machine
      → List Uptime
      → List Threat
      → Option (Machine × List Uptime × List Threat × UpsertResult)
  heartbeat_state max_age_days offline_after_seconds r seen_at fresh m uptimes threats =
      let (threats', result) = upsert_threats m.id fresh r.threats threats in
      elim (record_credits uptimes m.id
        (credit_for_gap m.last_seen seen_at offline_after_seconds)) [
          | none ↦ none
          | some uptimes' ↦ some (reported_row max_age_days r seen_at m, uptimes', threats', result)
        ]
