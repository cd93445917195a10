-- ===== src/Audit.antt =====
-- backend/app/features/audit: one entry to an administrative action. The entry's own identifier is
-- left out; the details are keys with texts, as the routes write them.
use natimai_tiai.Prelude.{ℕ, not, Option, String, List, [], ◌∷◌, ◌++◌, select, count_where, ltb}
use natimai_tiai.Prelude.Time.{Instant}

pub record AuditEntry : Type 0 where
  pub at : Instant
  pub actor : String
  pub action : String
  pub resource_type : String
  pub resource_id : String
  pub details : List (String × Option String)
  pub ip : Option String

-- `record`, of an entry, which the caller's transaction commits
pub record_entry : AuditEntry → List AuditEntry → List AuditEntry
record_entry e log = log ++ e ∷ []

-- `purge_before`: the log, and how many entries left it
pub purge_before : List AuditEntry → Instant → List AuditEntry × ℕ
purge_before log cutoff = (
  select (λ (e : AuditEntry). not (ltb e.at cutoff)) log,
  count_where (λ (e : AuditEntry). ltb e.at cutoff) log,
)
