-- ===== src/Machine/Enrollment.antt =====
-- backend/app/api/routes/agent.py, `enroll`: a poste's first token, and every later attempt to get
-- one, behind the rate limiter and the fleet secret. The texts of the payload come after their
-- validators; `lower` is SQL's. `show_id` prints a UUID.
pub mod Takeover
pub mod Minted
use natimai_tiai.Prelude.{
  ℕ, Bool, true, false, ◌&&◌, ◌||◌, not, Option, none, some, String, List, [], ◌∷◌, ◌++◌, any,
  is_null, is_not_null, coalesce_to, eq_value, ◌==◌, string_eq, if◌then◌else◌, map,
}
use natimai_tiai.Prelude.Time.{Instant}
use natimai_tiai.Audit.{AuditEntry, record_entry}
use natimai_tiai.Machine.{Machine, new_machine}
use natimai_tiai.Machine.TokenRotation.{reset_rotation}
use natimai_tiai.Machine.Fingerprint.{
  Fingerprint, no_fingerprint, trustworthy_smbios_uuid, is_suspicious_change, store_fingerprint,
}

-- `EnrollRequest`; a location that the agent did not send is no value, one that it sent is the
-- value to store.
pub record EnrollRequest : Type 0 where
  pub machine_uuid : String
  pub hostname : Option String
  pub domain : Option String
  pub location : Option (Option String)
  pub os_version : Option String
  pub agent_version : Option String
  pub fingerprint : Option Fingerprint

pub data EnrollOutcome : Type 0 where
  enrolled : ℕ → String → EnrollOutcome
  enrollment_revoked approval_required : EnrollOutcome

-- `select(Machine).where(Machine.machine_uuid == ...)`, unique in the table
unfoldable pub machine_by_uuid : List Machine → String → Option Machine
machine_by_uuid [] u = none
machine_by_uuid (m ∷ machines) u =
    if m.machine_uuid == u then some m else machine_by_uuid machines u

-- The write of that row.
pub put_machine : Machine → List Machine → List Machine
put_machine m' [] = []
put_machine m' (m ∷ machines) =
    if m.machine_uuid == m'.machine_uuid then m' ∷ machines else m ∷ put_machine m' machines

-- The row of a request that waits for an administrator.
pub held_row : Instant → String → Machine → Machine
held_row now ip m = record m { reenroll_requested_at = some now; reenroll_requested_ip = some ip }

-- The audit entry of that request.
pub held_entry : (ℕ → String) → EnrollRequest → Instant → String → Machine → AuditEntry
held_entry show_id r now ip m = record {
  at = now;
  actor = "agent";
  action = "machine.reenroll_requested";
  resource_type = "machine";
  resource_id = show_id m.id;
  details = ("hostname", r.hostname) ∷ ("machine_uuid", some r.machine_uuid) ∷ [];
  ip = some ip;
}

-- The tables that a request writes.
pub record Registry : Type 0 where
  pub machines : List Machine
  pub audit_log : List AuditEntry

-- `payload.fingerprint or Fingerprint()`
abbrev pub reported : EnrollRequest → Fingerprint
reported r = coalesce_to r.fingerprint no_fingerprint

module _ (hash_token : String → String) (normalized lower : String → String)
    (show_id : ℕ → String) where
  -- The suspicion on the known identity: a changed anchor, or a missing one.
  pub anchor_moved : Machine → Fingerprint → Bool
  anchor_moved m fp =
      is_suspicious_change normalized m fp
      || (is_not_null (trustworthy_smbios_uuid normalized m.smbios_uuid)
          && is_null (trustworthy_smbios_uuid normalized fp.smbios_uuid))

  -- Another identity with the anchor that is reported.
  pub shares_anchor : List Machine → String → Option String → Bool
  shares_anchor machines machine_uuid none = false
  shares_anchor machines machine_uuid (some anchor) =
      any
        (λ (o : Machine). elim o.smbios_uuid [
          | none ↦ false
          | some s ↦ lower s == anchor && not (o.machine_uuid == machine_uuid)
        ])
        machines

  -- The row that the token is minted for.
  pub enrolled_row : EnrollRequest → Fingerprint → Bool → Instant → String → Machine → Machine
  enrolled_row r fp suspicious now token m =
      let stored = store_fingerprint fp (record m {
        hostname = r.hostname;
        domain = r.domain;
        location = coalesce_to r.location m.location;
        os_version = r.os_version;
        agent_version = r.agent_version;
      }) in
      reset_rotation (record stored {
        needs_verification = suspicious || m.needs_verification;
        token_hash = some (hash_token token);
        token_issued_at = now;
        reenroll_requested_at = none;
        reenroll_requested_ip = none;
        updated_at = now;
      })

  -- `enroll`, on an identity that the table does not have and on one that it has; `fresh` and
  -- `token` are drawn.
  unfoldable pub enroll_new :
      EnrollRequest → Instant → ℕ → String → Registry → EnrollOutcome × Registry
  enroll_new r now fresh token db =
      let fp = reported r in
      let suspicious =
        shares_anchor db.machines r.machine_uuid
          (trustworthy_smbios_uuid normalized fp.smbios_uuid) in
      (
        enrolled fresh token,
        record db {
          machines =
              db.machines
              ++ enrolled_row r fp suspicious now token (new_machine fresh r.machine_uuid now) ∷ [];
        },
      )

  pub enroll_known :
      Bool
      → EnrollRequest
      → Instant
      → String
      → String
      → Registry
      → Machine
      → EnrollOutcome × Registry
  enroll_known reenroll_requires_approval r now ip token db m =
      let fp = reported r in
      let suspicious =
        anchor_moved m fp
        || shares_anchor db.machines r.machine_uuid
            (trustworthy_smbios_uuid normalized fp.smbios_uuid) in
      if m.token_revoked
      then (enrollment_revoked, db)
      else if is_not_null m.token_hash && reenroll_requires_approval
      then (
        approval_required,
        record {
          machines = put_machine (held_row now ip m) db.machines;
          audit_log = record_entry (held_entry show_id r now ip m) db.audit_log;
        },
      )
      else (
        enrolled m.id token,
        record db { machines = put_machine (enrolled_row r fp suspicious now token m) db.machines },
      )

  unfoldable pub enroll :
      Bool → EnrollRequest → Instant → String → ℕ → String → Registry → EnrollOutcome × Registry
  enroll reenroll_requires_approval r now ip fresh token db =
      elim (machine_by_uuid db.machines r.machine_uuid) [
        | none ↦ enroll_new r now fresh token db
        | some m ↦ enroll_known reenroll_requires_approval r now ip token db m
      ]
