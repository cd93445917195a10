-- ===== src/Worker.antt =====
-- backend/app/core/worker.py: the periodic jobs, when each is due, and what one tick of the loop
-- does with them. A `datetime` is an instant (Prelude/Time): its date is its day number, its
-- weekday is the day number modulo 7, and `isocalendar()[:2]` is the number of its week, since the
-- count starts on a Monday. An hour is at most 23 and a weekday at most 6, as the settings check.
pub mod Calendar
pub mod OncePerPeriod
pub mod Runs
pub mod Turn
use natimai_tiai.Prelude.{
  ℕ, ◌+◌, ◌-◌, ◌*◌, ◌/◌, ◌%◌, Bool, true, false, not, ◌&&◌, Option, none, some, String, List, [],
  ◌∷◌, map, leb, nat_eq, string_eq, ◌==◌, if◌then◌else◌, Eq, option_eq,
}
use natimai_tiai.Prelude.Time.{Instant, hour, day, seconds}

pub poll_seconds : ℕ
poll_seconds = 30

-- `SchedulePolicy`, the console's schedule
pub record SchedulePolicy : Type 0 where
  pub digest_hour_utc : ℕ
  pub reminder_weekday : ℕ

-- `Job`; what it runs is found by its name. The params are those of the two mail jobs, the digest's
-- without a weekday.
pub record Job : Type 0 where
  pub name : String
  pub next_run : Instant
  pub schedule : Instant → Instant
  pub params : Option (List ℕ)
  pub last_run : Option Instant

pub every : ℕ → Instant → Instant
every n now = now + seconds n

-- `now.replace(hour=h, minute=0, second=0, microsecond=0)`
abbrev pub at_hour : ℕ → Instant → Instant
at_hour h now = (now / day) * day + h * hour

unfoldable pub daily_at : ℕ → Instant → Instant
daily_at h now =
    let candidate = at_hour h now in if leb candidate now then candidate + day else candidate

-- The days from a weekday to the next one that is wanted, `(a - b) % 7` in Python.
abbrev pub days_ahead : ℕ → ℕ → ℕ
days_ahead wanted weekday = (wanted + 7 - weekday) % 7

unfoldable pub weekly_at : ℕ → ℕ → Instant → Instant
weekly_at weekday h now =
    let candidate = at_hour h now + days_ahead weekday ((now / day) % 7) * day in
    if leb candidate now then candidate + 7 * day else candidate

-- The period of a mail job that an instant falls in: the ISO week or the UTC day
unfoldable pub period : String → Instant → ℕ
period job_name t = if job_name == "maintenance_reminders" then t / day / 7 else t / day

-- `_same_period`
unfoldable pub same_period : String → Instant → Instant → Bool
same_period job_name a b = period job_name a == period job_name b

unfoldable pub digest_params : SchedulePolicy → List ℕ
digest_params p = p.digest_hour_utc ∷ []

unfoldable pub reminder_params : SchedulePolicy → List ℕ
reminder_params p = p.reminder_weekday ∷ p.digest_hour_utc ∷ []

pub plain_job : String → Instant → (Instant → Instant) → Job
plain_job name next_run schedule = record {
  name = name;
  next_run = next_run;
  schedule = schedule;
  params = none;
  last_run = none;
}

unfoldable pub digest_job : Instant → SchedulePolicy → Job
digest_job now p = record {
  name = "daily_digest";
  next_run = daily_at p.digest_hour_utc now;
  schedule = daily_at p.digest_hour_utc;
  params = some (digest_params p);
  last_run = none;
}

unfoldable pub reminder_job : Instant → SchedulePolicy → Job
reminder_job now p = record {
  name = "maintenance_reminders";
  next_run = weekly_at p.reminder_weekday p.digest_hour_utc now;
  schedule = weekly_at p.reminder_weekday p.digest_hour_utc;
  params = some (reminder_params p);
  last_run = none;
}

housekeeping_job : Instant → String → Job
housekeeping_job now name = plain_job name (daily_at 8 now) (daily_at 8)

pub build_jobs : Instant → SchedulePolicy → List Job
build_jobs now p =
    plain_job "outbox" now (every poll_seconds)
    ∷ plain_job "expire_stale_commands" now (every 300)
    ∷ digest_job now p
    ∷ reminder_job now p
    ∷ map (housekeeping_job now) (
        "purge_outbox" ∷ "purge_usage" ∷ "purge_sessions" ∷ "purge_audit" ∷ "purge_commands"
        ∷ "purge_reset_tokens" ∷ [])

-- `list[int]` equality of two params
abbrev params_beq : List ℕ → List ℕ → Bool
params_beq [] [] = true
params_beq [] (b ∷ bs) = false
params_beq (a ∷ rest) [] = false
params_beq (a ∷ rest) (b ∷ bs) = a == b && params_beq rest bs

abbrev pub has_params : Option (List ℕ) → List ℕ → Bool
has_params none wanted = false
has_params (some params) wanted = params_beq params wanted

-- A run that would fall in the period of the last one is put off to the next.
abbrev pub put_off : String → (Instant → Instant) → Instant → Option Instant → Instant
put_off name schedule next_run none = next_run
put_off name schedule next_run (some last) =
    if same_period name last next_run then schedule next_run else next_run

-- A mail job takes the params and the schedule that are wanted, where its params are others.
unfoldable pub re_aim : List ℕ → (Instant → Instant) → Instant → Job → Job
re_aim params schedule now j = if has_params j.params params then j else record j {
  params = some params;
  schedule = schedule;
  next_run = put_off j.name schedule (schedule now) j.last_run;
}

-- `apply_schedule`, on one job and on all
unfoldable pub apply_to : SchedulePolicy → Instant → Job → Job
apply_to p now j =
    if j.name == "daily_digest"
    then re_aim (digest_params p) (daily_at p.digest_hour_utc) now j
    else if j.name == "maintenance_reminders"
    then re_aim (reminder_params p) (weekly_at p.reminder_weekday p.digest_hour_utc) now j
    else j

pub apply_schedule : SchedulePolicy → Instant → List Job → List Job
apply_schedule p now jobs = map (apply_to p now) jobs

abbrev pub is_due : Instant → Job → Bool
is_due now j = leb j.next_run now

-- The job of a run at `now`, moved on before it runs
unfoldable pub moved_on : Instant → Job → Job
moved_on now j = record j { next_run = j.schedule now; last_run = some now }

unfoldable pub after_tick : Instant → Job → Job
after_tick now j = if is_due now j then moved_on now j else j

-- `run_due_jobs`: what a job does to the world is a parameter, and so is how it ends, a count or an
-- exception.
module _ {ℓ} {S : Type ℓ} (run : String → S → Option ℕ × S) where
  pub run_due_jobs : Instant → List Job → S → List Job × S
  run_due_jobs now [] s = ([], s)
  run_due_jobs now (j ∷ jobs) s =
      let after = if is_due now j then (run j.name s).1 else s in
      let (rest, end) = run_due_jobs now jobs after in (after_tick now j ∷ rest, end)

-- One turn of `main`'s loop: the schedule as it was read, if it could be, at one clock, and the
-- clock of the runs.
pub record Tick : Type 0 where
  pub policy : Option SchedulePolicy
  pub read_at : Instant
  pub run_at : Instant

abbrev pub re_aimed : Tick → Job → Job
re_aimed t j = elim t.policy [ none ↦ j | some p ↦ apply_to p t.read_at j ]

-- When a job runs in the turns of the loop.
pub run_log : List Tick → Job → List Instant
run_log [] j = []
run_log (t ∷ ticks) j =
    let rest = run_log ticks (after_tick t.run_at (re_aimed t j)) in
    if is_due t.run_at (re_aimed t j) then t.run_at ∷ rest else rest
