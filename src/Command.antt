-- ===== src/Command.antt =====
-- backend/app/features/command/models.py: the closed catalogue of commands, the life of a queued
-- command, and its row. The columns `type` and `status` hold the values of the two string enums and
-- nothing else, so they are the enums here.
pub mod Queue
pub mod Result
pub mod Delivery
pub mod Lifecycle
use natimai_tiai.Prelude.{
  ℕ, ◌≡◌, ◌↔◌, refl, Bool, true, false, Option, none, some, String, List, [], ◌∷◌, nat_beq, Eq,
  arith,
}
use natimai_tiai.Prelude.Time.{Instant}

pub data CommandType : Type 0 where
  quick_scan full_scan update_signatures gpo_update flush_dns time_resync cert_pulse : CommandType
  spooler_reset sfc_scan dism_restore_health dism_component_cleanup chkdsk_scan : CommandType
  wu_scan wu_install wu_install_full wu_reset inventory_scan reboot shutdown : CommandType
  wake_on_lan gpo_report net_config package_install package_uninstall : CommandType

pub data CommandStatus : Type 0 where
  pending delivered running succeeded failed expired : CommandStatus

-- The places in the two enums, by which their members compare.
abbrev type_rank : CommandType → ℕ
type_rank quick_scan = 0
type_rank full_scan = 1
type_rank update_signatures = 2
type_rank gpo_update = 3
type_rank flush_dns = 4
type_rank time_resync = 5
type_rank cert_pulse = 6
type_rank spooler_reset = 7
type_rank sfc_scan = 8
type_rank dism_restore_health = 9
type_rank dism_component_cleanup = 10
type_rank chkdsk_scan = 11
type_rank wu_scan = 12
type_rank wu_install = 13
type_rank wu_install_full = 14
type_rank wu_reset = 15
type_rank inventory_scan = 16
type_rank reboot = 17
type_rank shutdown = 18
type_rank wake_on_lan = 19
type_rank gpo_report = 20
type_rank net_config = 21
type_rank package_install = 22
type_rank package_uninstall = 23

-- `a == b` on types
unfoldable pub same_type : CommandType → CommandType → Bool
same_type a b = nat_beq (type_rank a) (type_rank b)

abbrev pub is_wake : CommandType → Bool
is_wake wake_on_lan = true
is_wake _ = false

-- `in RISKY_COMMAND_TYPES`
pub is_risky : CommandType → Bool
is_risky reboot = true
is_risky shutdown = true
is_risky wu_install = true
is_risky wu_install_full = true
is_risky wu_reset = true
is_risky spooler_reset = true
is_risky dism_restore_health = true
is_risky dism_component_cleanup = true
is_risky package_install = true
is_risky package_uninstall = true
is_risky _ = false

-- `in PACKAGE_COMMAND_TYPES`
abbrev pub is_package : CommandType → Bool
is_package package_install = true
is_package package_uninstall = true
is_package _ = false

abbrev pub is_pending : CommandStatus → Bool
is_pending pending = true
is_pending _ = false

-- `in [PENDING, DELIVERED]`
abbrev pub is_waiting : CommandStatus → Bool
is_waiting pending = true
is_waiting delivered = true
is_waiting _ = false

-- `in TERMINAL_STATUSES`
abbrev pub is_terminal : CommandStatus → Bool
is_terminal succeeded = true
is_terminal failed = true
is_terminal expired = true
is_terminal _ = false

-- `in AGENT_REPORTABLE_STATUSES`
abbrev pub is_reportable : CommandStatus → Bool
is_reportable running = true
is_reportable succeeded = true
is_reportable failed = true
is_reportable _ = false

pub record Command : Type 0 where
  pub id : ℕ
  pub machine_id : ℕ
  pub type : CommandType
  pub status : CommandStatus
  pub created_by : Option String
  pub created_at : Instant
  pub expires_at : Instant
  pub delivered_at : Option Instant
  pub started_at : Option Instant
  pub finished_at : Option Instant
  pub result_output : Option String
  pub error : Option String
  pub relay_machine_id : Option ℕ
  pub package_id : Option ℕ

-- `Command(...)`: a row with the defaults of its columns
abbrev pub new_command : ℕ → ℕ → CommandType → Instant → Instant → Command
new_command id machine_id type created_at expires_at = record {
  id = id;
  machine_id = machine_id;
  type = type;
  status = pending;
  created_by = none;
  created_at = created_at;
  expires_at = expires_at;
  delivered_at = none;
  started_at = none;
  finished_at = none;
  result_output = none;
  error = none;
  relay_machine_id = none;
  package_id = none;
}
