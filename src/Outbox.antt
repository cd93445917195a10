-- ===== src/Outbox.antt =====
-- backend/app/features/notification/models.py and outbox.py: the table of the mails that are owed,
-- how a mail gets into it, and the worker's drain of it. What the provider answers is a parameter.
pub mod Drain
pub mod Settles
use natimai_tiai.Prelude.{
  ℕ, ◌+◌, ◌-◌, ◌*◌, ◌^◌, suc, min, Bool, true, false, not, ◌&&◌, ◌||◌, Option, none, some, String,
  List, [], ◌∷◌, ◌++◌, map, leb, ltb, take, select, sort_on, count_where, contains, nat_eq,
  string_eq, ◌==◌, if◌then◌else◌,
}
use natimai_tiai.Prelude.Time.{Instant, seconds, days}

pub data EmailStatus : Type 0 where
  pending sent abandoned : EmailStatus

pub record EmailOutbox : Type 0 where
  pub id : ℕ
  pub to_address : String
  pub subject : String
  pub body : String
  pub status : EmailStatus
  pub attempts : ℕ
  pub created_at : Instant
  pub next_attempt_at : Instant
  pub sent_at : Option Instant
  pub last_error : Option String

abbrev pub is_pending : EmailStatus → Bool
is_pending pending = true
is_pending sent = false
is_pending abandoned = false

-- `queue_email`: `enabled` is the policy's, the row's id is drawn.
pub queue_email :
    Bool → String → String → String → ℕ → Instant → List EmailOutbox → Bool × List EmailOutbox
queue_email enabled to subject text id now table =
    if not enabled || to == "" then (false, table) else (
      true,
      table
          ++ record {
            id = id;
            to_address = to;
            subject = subject;
            body = text;
            status = pending;
            attempts = 0;
            created_at = now;
            next_attempt_at = now;
            sent_at = none;
            last_error = none;
          }
            ∷ [],
    )

pub retry_base_seconds : ℕ
retry_base_seconds = 60

pub retry_max_seconds : ℕ
retry_max_seconds = 3600

-- `_retry_delay`, which is asked for after an attempt at least
pub retry_delay : ℕ → ℕ
unfolding retry_base_seconds retry_max_seconds
retry_delay attempts = seconds (min (retry_base_seconds * 2 ^ (attempts - 1)) retry_max_seconds)

-- How the try of a mail ends: sent, no provider configured, or an exception, with what the row keeps
-- of its type and text (their first 500 characters).
pub data Delivery : Type 0 where
  accepted unconfigured : Delivery
  raised : String → Delivery

abbrev pub is_accepted : Delivery → Bool
is_accepted accepted = true
is_accepted unconfigured = false
is_accepted (raised e) = false

abbrev pub error_of : Delivery → Option String
error_of accepted = none
error_of unconfigured = some "E-mail provider is not configured"
error_of (raised e) = some e

-- The loop's body of `send_pending`, for one mail: `now` is the clock after the try.
unfoldable pub try_row : ℕ → Instant → Delivery → EmailOutbox → EmailOutbox
try_row max_attempts now d row =
    let attempts = suc row.attempts in
    if is_accepted d
    then record row { status = sent; sent_at = some now }
    else if leb max_attempts attempts
    then record row { attempts = attempts; last_error = error_of d; status = abandoned }
    else record row {
      attempts = attempts;
      last_error = error_of d;
      next_attempt_at = now + retry_delay attempts;
    }

abbrev pub is_due : Instant → EmailOutbox → Bool
is_due now r = is_pending r.status && leb r.next_attempt_at now

-- The mails of one drain, in the order in which they are tried
unfoldable pub batch : ℕ → Instant → List EmailOutbox → List EmailOutbox
batch batch_size now table =
    take batch_size (sort_on (λ (r : EmailOutbox). r.created_at) (select (is_due now) table))

abbrev pub is_tried : ℕ → Instant → List EmailOutbox → EmailOutbox → Bool
is_tried batch_size now table r =
    is_due now r && contains (map (λ (b : EmailOutbox). b.id) (batch batch_size now table)) r.id

-- `send_pending`: the answer of the provider to a mail, and the clock after its try
module _ (max_attempts batch_size : ℕ) (deliver : EmailOutbox → Delivery)
    (clock : EmailOutbox → Instant) where
  unfoldable pub drained_row : Instant → List EmailOutbox → EmailOutbox → EmailOutbox
  drained_row now table r =
      if is_tried batch_size now table r then try_row max_attempts (clock r) (deliver r) r else r

  unfoldable pub send_pending : Instant → List EmailOutbox → List EmailOutbox × ℕ
  send_pending now table = (
    map (drained_row now table) table,
    count_where (λ (r : EmailOutbox). is_tried batch_size now table r && is_accepted (deliver r))
        table,
  )

-- `purge_settled`
pub purge_settled : List EmailOutbox → Instant → ℕ → List EmailOutbox × ℕ
purge_settled table now retention_days =
    let gone = λ (r : EmailOutbox).
      not (is_pending r.status) && ltb (r.created_at + days retention_days) now in
    (select (λ r. not (gone r)) table, count_where gone table)
