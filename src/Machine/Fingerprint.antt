-- ===== src/Machine/Fingerprint.antt =====
-- backend/app/features/machine/fingerprint.py: which hardware anchors identify a poste, and which
-- changes of them are suspicious. `normalized` is Python's `strip` and `lower` of a text.
use natimai_tiai.Prelude.{
  Bool, false, ◌&&◌, ◌||◌, not, Option, none, some, String, List, [], ◌∷◌, contains, ◌==◌,
  string_eq, if◌then◌else◌, coalesce,
}
use natimai_tiai.Machine.{Machine}
use natimai_tiai.Command.Result.{truthy}

-- INVALID_SMBIOS_UUIDS
abbrev pub invalid_smbios_uuids : List String
invalid_smbios_uuids =
    "00000000-0000-0000-0000-000000000000" ∷ "ffffffff-ffff-ffff-ffff-ffffffffffff"
    ∷ "03000200-0400-0500-0006-000700080009" ∷ []

-- The `Fingerprint` of a request, in api/routes/agent.py
pub record Fingerprint : Type 0 where
  pub machine_guid : Option String
  pub smbios_uuid : Option String
  pub tpm_ek_hash : Option String

abbrev pub no_fingerprint : Fingerprint
no_fingerprint = record { machine_guid = none; smbios_uuid = none; tpm_ek_hash = none }

-- Two texts that are both there, both not empty, and not the same.
pub both_differ : Option String → Option String → Bool
both_differ none b = false
both_differ (some a) none = false
both_differ (some a) (some b) = truthy (some a) && (truthy (some b) && not (a == b))

module _ (normalized : String → String) where
  pub trustworthy_smbios_uuid : Option String → Option String
  trustworthy_smbios_uuid none = none
  trustworthy_smbios_uuid (some s) =
      if not (truthy (some s))
      then none
      else if not (truthy (some (normalized s))) || contains invalid_smbios_uuids (normalized s)
      then none
      else some (normalized s)

  pub is_suspicious_change : Machine → Fingerprint → Bool
  is_suspicious_change m fp =
      both_differ (trustworthy_smbios_uuid m.smbios_uuid) (trustworthy_smbios_uuid fp.smbios_uuid)
      || both_differ m.tpm_ek_hash fp.tpm_ek_hash

-- `store_fingerprint`: the values reported, and what was there where none is
unfoldable pub store_fingerprint : Fingerprint → Machine → Machine
store_fingerprint fp m = record m {
  machine_guid = coalesce fp.machine_guid m.machine_guid;
  smbios_uuid = coalesce fp.smbios_uuid m.smbios_uuid;
  tpm_ek_hash = coalesce fp.tpm_ek_hash m.tpm_ek_hash;
}
