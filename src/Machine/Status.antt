-- ===== src/Machine/Status.antt =====
-- backend/app/features/machine/status.py, with recompute_up_to_date of crud.py beside it: the verdict
-- on a poste's antivirus, and the filters of the console's list. `bios_date` is an instant of its day;
-- the percentage that the list sorts by (`disk_free_percent`), a float, is left out.
pub mod Filters
use natimai_tiai.Prelude.{
  ℕ, ◌+◌, ◌-◌, ◌*◌, ◌/◌, Bool, true, false, ◌&&◌, ◌||◌, not, Option, none, some, String, List, [],
  ◌∷◌, map, count_where, contains, ltb, leb, is_null, is_not_null, lt_value, gt_value, in_values,
  if◌then◌else◌, string_eq, option_eq, ◌==◌, Eq,
}
use natimai_tiai.Prelude.Int.{ℤ, pos, leb_ℤ}
use natimai_tiai.Prelude.Time.{Instant, seconds, days, day}
use natimai_tiai.Machine.{Machine}

-- `x is True`, which is also what Python reads as true of a Boolean or None, and `x is False`
abbrev pub is_true : Option Bool → Bool
is_true (some true) = true
is_true _ = false

abbrev pub is_false : Option Bool → Bool
is_false (some false) = true
is_false _ = false

-- `_defender_protects`
pub defender_protects : Option Bool → Option Bool → Option ℤ → ℕ → Bool
defender_protects av_enabled rtp_enabled none max_age_days = false
defender_protects av_enabled rtp_enabled (some age) max_age_days =
    is_true av_enabled && (is_true rtp_enabled && leb_ℤ age (pos max_age_days))

-- `_third_party_protects`
pub third_party_protects : Option Bool → Option Bool → Option Bool → Bool
third_party_protects enabled signatures_up_to_date is_defender =
    is_false is_defender && (is_true enabled && not (is_false signatures_up_to_date))

-- `compute_is_up_to_date`, of the columns that its callers give it
unfoldable pub compute_is_up_to_date : ℕ → Machine → Bool
compute_is_up_to_date max_age_days m =
    if defender_protects m.av_enabled m.rtp_enabled m.signature_age_days max_age_days
    then true
    else third_party_protects m.av_product_enabled m.av_product_signatures_up_to_date
        m.av_product_is_defender

pub is_online : Instant → Instant → ℕ → Bool
is_online last_seen now offline_after_seconds = ltb now (last_seen + seconds offline_after_seconds)

unfoldable pub online_clause : Bool → Instant → ℕ → Machine → Bool
online_clause true now offline_after_seconds m =
    leb now (m.last_seen + seconds offline_after_seconds)
online_clause false now offline_after_seconds m =
    ltb (m.last_seen + seconds offline_after_seconds) now

pub data MachineStatus : Type 0 where
  up_to_date outdated needs_verification inactive : MachineStatus

pub status_clause : MachineStatus → Instant → ℕ → Machine → Bool
status_clause up_to_date now inactive_after_days m = is_true m.is_up_to_date
status_clause outdated now inactive_after_days m = not (is_true m.is_up_to_date)
status_clause needs_verification now inactive_after_days m = m.needs_verification
status_clause inactive now inactive_after_days m = ltb (m.last_seen + days inactive_after_days) now

pub data WindowsUpdateFilter : Type 0 where
  updates_pending reboot_required : WindowsUpdateFilter

pub windows_update_clause : WindowsUpdateFilter → Machine → Bool
windows_update_clause updates_pending m = gt_value m.wu_pending_count 0
windows_update_clause reboot_required m = m.wu_reboot_required

-- `version.not_in(outdated)`, unknown on NULL
abbrev pub not_in_values : Option String → List String → Bool
not_in_values none vs = false
not_in_values (some v) vs = not (contains vs v)

pub agent_outdated_clause : List String → Bool → Machine → Bool
agent_outdated_clause [] true m = false
agent_outdated_clause [] false m = is_not_null m.agent_version
agent_outdated_clause (v ∷ vs) true m = in_values m.agent_version (v ∷ vs)
agent_outdated_clause (v ∷ vs) false m = not_in_values m.agent_version (v ∷ vs)

pub data ScanFilter : Type 0 where
  quick full both : ScanFilter

-- `_scan_overdue`
pub scan_overdue : Option Instant → Instant → Bool
scan_overdue column cutoff = is_null column || lt_value column cutoff

pub scan_clause : ScanFilter → Instant → Machine → Bool
scan_clause quick cutoff m = scan_overdue m.last_quick_scan cutoff
scan_clause full cutoff m = scan_overdue m.last_full_scan cutoff
scan_clause both cutoff m =
    scan_overdue m.last_quick_scan cutoff && scan_overdue m.last_full_scan cutoff

-- `ram_nominal_gb`: the ceiling of a division
pub ram_nominal_gb : Option ℕ → Option ℕ
ram_nominal_gb none = none
ram_nominal_gb (some mb) = some ((mb + 1023) / 1024)

-- A bound that is asked for, on a nullable value
abbrev pub at_least : Option ℕ → Option ℕ → Bool
at_least none bound = false
at_least (some v) none = true
at_least (some v) (some bound) = leb bound v

abbrev pub at_most : Option ℕ → Option ℕ → Bool
at_most none bound = false
at_most (some v) none = true
at_most (some v) (some bound) = leb v bound

pub ram_clause : Option ℕ → Option ℕ → Machine → Bool
ram_clause min_gb max_gb m =
    is_not_null m.ram_total_mb
    && (at_least (ram_nominal_gb m.ram_total_mb) min_gb
        && at_most (ram_nominal_gb m.ram_total_mb) max_gb)

-- The test of `low_disk_clause` on the two columns
pub is_low_disk : Option ℕ → Option ℕ → ℕ → Bool
is_low_disk (some free) (some total) percent = ltb 0 total && ltb (free * 100) (total * percent)
is_low_disk _ _ percent = false

pub low_disk_clause : ℕ → Machine → Bool
low_disk_clause percent m = is_low_disk m.system_volume_free_mb m.system_volume_total_mb percent

-- `col(Machine.bios_date) < cutoff`, on dates
pub older_than : Option Instant → Instant → Bool
older_than none cutoff = false
older_than (some date) cutoff = ltb (date / day) (cutoff / day)

pub aging_hardware_clause : Instant → ℕ → Machine → Bool
aging_hardware_clause now years m = older_than m.bios_date (now - days (365 * years))

-- `verdict is not machine.is_up_to_date`
abbrev pub verdict_moved : Bool → Option Bool → Bool
verdict_moved verdict none = true
verdict_moved true (some b) = not b
verdict_moved false (some b) = b

-- `recompute_up_to_date`, on one row and on the table: the rows, and how many were written
pub recompute_one : ℕ → Machine → Machine
recompute_one max_age_days m =
    if verdict_moved (compute_is_up_to_date max_age_days m) m.is_up_to_date
    then record m { is_up_to_date = some (compute_is_up_to_date max_age_days m) }
    else m

pub recompute_up_to_date : ℕ → List Machine → List Machine × ℕ
recompute_up_to_date max_age_days machines = (
  map (recompute_one max_age_days) machines,
  count_where
      (λ (m : Machine). verdict_moved (compute_is_up_to_date max_age_days m) m.is_up_to_date)
      machines,
)
