-- ===== src/Machine.antt =====
-- backend/app/features/machine/models.py: the row of a managed Windows endpoint. The columns of the
-- hardware inventory that no modelled operation reads (`hw_*` to `os_install_date`, but the memory
-- and the BIOS date) are left out; a UUID is the number that it encodes.
pub mod TokenRotation
pub mod Status
pub mod Fingerprint
pub mod Enrollment
pub mod Merge
pub mod Heartbeat
use natimai_tiai.Prelude.{ℕ, Bool, Option, String, none, false}
use natimai_tiai.Prelude.Int.{ℤ}
use natimai_tiai.Prelude.Time.{Instant}

pub record Machine : Type 0 where
  pub id : ℕ
  pub machine_uuid : String
  pub machine_guid : Option String
  pub smbios_uuid : Option String
  pub tpm_ek_hash : Option String
  pub needs_verification : Bool
  pub hostname : Option String
  pub domain : Option String
  pub location : Option String
  pub room_id : Option ℕ
  pub ad_distinguished_name : Option String
  pub ad_ou : Option String
  pub ad_ou_dn : Option String
  pub ad_location : Option String
  pub maintenance_cycle_days : Option ℕ
  pub maintenance_owner_id : Option ℕ
  pub last_maintenance_at : Option Instant
  pub os_version : Option String
  pub agent_version : Option String
  pub ip_address : Option String
  pub mac_address : Option String
  pub ip_prefix_length : Option ℕ
  pub rtp_enabled : Option Bool
  pub av_enabled : Option Bool
  pub signature_version : Option String
  pub signature_last_updated : Option Instant
  pub signature_age_days : Option ℤ
  pub last_quick_scan : Option Instant
  pub last_full_scan : Option Instant
  pub running_mode : Option String
  pub is_up_to_date : Option Bool
  pub av_product_name : Option String
  pub av_product_enabled : Option Bool
  pub av_product_signatures_up_to_date : Option Bool
  pub av_product_is_defender : Option Bool
  pub wu_pending_count : Option ℕ
  pub wu_reboot_required : Bool
  pub wu_last_search : Option Instant
  pub wu_last_install : Option Instant
  pub bios_date : Option Instant
  pub ram_total_mb : Option ℕ
  pub system_volume_total_mb : Option ℕ
  pub system_volume_free_mb : Option ℕ
  pub inventory_hash : Option String
  pub inventory_last_seen : Option Instant
  pub session_user_present : Option Bool
  pub session_username : Option String
  pub session_state : Option String
  pub session_is_remote : Option Bool
  pub token_hash : Option String
  pub token_revoked : Bool
  pub reenroll_requested_at : Option Instant
  pub reenroll_requested_ip : Option String
  pub token_issued_at : Instant
  pub pending_token_hash : Option String
  pub first_seen : Instant
  pub last_seen : Instant
  pub created_at : Instant
  pub updated_at : Instant

-- `Machine(machine_uuid=...)`: a row with the defaults of its columns, drawn at `now`
abbrev pub new_machine : ℕ → String → Instant → Machine
new_machine id machine_uuid now = record {
  id = id;
  machine_uuid = machine_uuid;
  machine_guid = none;
  smbios_uuid = none;
  tpm_ek_hash = none;
  needs_verification = false;
  hostname = none;
  domain = none;
  location = none;
  room_id = none;
  ad_distinguished_name = none;
  ad_ou = none;
  ad_ou_dn = none;
  ad_location = none;
  maintenance_cycle_days = none;
  maintenance_owner_id = none;
  last_maintenance_at = none;
  os_version = none;
  agent_version = none;
  ip_address = none;
  mac_address = none;
  ip_prefix_length = none;
  rtp_enabled = none;
  av_enabled = none;
  signature_version = none;
  signature_last_updated = none;
  signature_age_days = none;
  last_quick_scan = none;
  last_full_scan = none;
  running_mode = none;
  is_up_to_date = none;
  av_product_name = none;
  av_product_enabled = none;
  av_product_signatures_up_to_date = none;
  av_product_is_defender = none;
  wu_pending_count = none;
  wu_reboot_required = false;
  wu_last_search = none;
  wu_last_install = none;
  bios_date = none;
  ram_total_mb = none;
  system_volume_total_mb = none;
  system_volume_free_mb = none;
  inventory_hash = none;
  inventory_last_seen = none;
  session_user_present = none;
  session_username = none;
  session_state = none;
  session_is_remote = none;
  token_hash = none;
  token_revoked = false;
  reenroll_requested_at = none;
  reenroll_requested_ip = none;
  token_issued_at = now;
  pending_token_hash = none;
  first_seen = now;
  last_seen = now;
  created_at = now;
  updated_at = now;
}
