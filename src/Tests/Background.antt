-- ===== src/Tests/Background.antt =====
-- Two days of a worker whose digest hour is moved, a mail that is never accepted, and a client that
-- tries too often.
use natimai_tiai.Prelude.{
  ℕ, ◌+◌, ◌*◌, ◌/◌, ◌≡◌, refl, arith, true, false, Option, none, some, String, List, [], ◌∷◌, map,
  select, count_where, any, all, length, ◌≤◌,
}
use natimai_tiai.Prelude.Time.{Instant, day, hour, seconds}
use natimai_tiai.Worker.{
  SchedulePolicy, Tick, Job, run_log, digest_job, reminder_job, run_due_jobs, apply_to, re_aim,
  daily_at, weekly_at, after_tick, moved_on, period, same_period, digest_params, reminder_params,
  is_due,
}
use natimai_tiai.Worker.Runs.{rising, timely, mail_runs-rising}
use natimai_tiai.Worker.Turn.{run_all, moves_on, run_due_jobs-all}
use natimai_tiai.Outbox.{
  send_pending, drained_row, try_row, batch, EmailOutbox, pending, unconfigured,
}
use natimai_tiai.Outbox.Settles.{Drain, is_owed, drain_all, hourly, drains_settle}
use natimai_tiai.Outbox.Drain.{left_all}
use natimai_tiai.RateLimit.Refines.{answers_of, promised_all, allow_refines}

abbrev at_six : SchedulePolicy
at_six = record { digest_hour_utc = 18; reminder_weekday = 0 }

abbrev at_eight : SchedulePolicy
at_eight = record { digest_hour_utc = 20; reminder_weekday = 4 }

abbrev turn : Instant → Option SchedulePolicy → Tick
turn now policy = record { policy = policy; read_at = now; run_at = now }

abbrev turns : List Tick
turns =
    turn (18 * hour + seconds 5) none
    ∷ turn (19 * hour) (some at_eight)
    ∷ turn (20 * hour + seconds 5) (some at_eight)
    ∷ turn (day + 20 * hour) (some at_eight)
    ∷ []

digest_timely : timely "daily_digest" turns (digest_job hour at_six) ≡ true
unfolding digest_job reminder_job apply_to re_aim daily_at weekly_at after_tick moved_on period
    same_period digest_params reminder_params
digest_timely = refl

reminder_timely : timely "maintenance_reminders" turns (reminder_job hour at_six) ≡ true
unfolding digest_job reminder_job apply_to re_aim daily_at weekly_at after_tick moved_on period
    same_period digest_params reminder_params
reminder_timely = refl

mail_runs-rising_example :
    (rising none (map (λ t. t / day) (run_log turns (digest_job hour at_six))) ≡ true)
    × (rising none (map (λ t. t / day / 7) (run_log turns (reminder_job hour at_six))) ≡ true)
mail_runs-rising_example =
    mail_runs-rising hour at_six turns refl refl digest_timely reminder_timely

abbrev runner : String → ℕ → Option ℕ × ℕ
runner name n = (none, n + 1)

abbrev jobs : List Job
jobs = digest_job hour at_six ∷ reminder_job hour at_six ∷ []

jobs_move : all (moves_on (18 * hour)) jobs ≡ true
unfolding digest_job reminder_job daily_at weekly_at
jobs_move = refl

run_due_jobs-all_example :
    ((run_due_jobs runner (18 * hour) jobs 0).0 ≡ map (after_tick (18 * hour)) jobs)
    × ((run_due_jobs runner (18 * hour) jobs 0).1
        ≡ run_all runner (select (is_due (18 * hour)) jobs) 0)
    × (count_where (is_due (18 * hour)) (run_due_jobs runner (18 * hour) jobs 0).0 ≡ 0)
run_due_jobs-all_example = run_due_jobs-all runner (18 * hour) jobs 0 jobs_move

abbrev mail : EmailOutbox
mail = record {
  id = 1;
  to_address = "operator";
  subject = "alert";
  body = "a threat";
  status = pending;
  attempts = 0;
  created_at = 0;
  next_attempt_at = 0;
  sent_at = none;
  last_error = none;
}

abbrev refused_at : Instant → Drain
refused_at now = record {
  now = now;
  deliver = λ r. unconfigured;
  clock = λ r. now + seconds 1;
  ended = now + seconds 2;
}

abbrev drains : List Drain
drains = refused_at 0 ∷ refused_at (2 * hour) ∷ []

drains-hourly : hourly 2 49 0 drains (mail ∷ []) ≡ true
unfolding send_pending drained_row try_row batch
drains-hourly = refl

left_to_try : left_all 2 (mail ∷ []) ≤ length drains
left_to_try = omega arith

drains_settle_example : any is_owed (drain_all 2 49 drains (mail ∷ [])) ≡ false
drains_settle_example = drains_settle 2 49 0 drains (mail ∷ []) refl drains-hourly left_to_try

abbrev tries : List (String × ℕ)
tries = ("a", 0) ∷ ("b", 1) ∷ ("a", 2) ∷ ("a", 3) ∷ ("a", 20) ∷ []

allow_refines_example :
    answers_of (record { max_attempts = 2; window = 10; hits = [] }) tries
    ≡ promised_all 2 10 [] tries
allow_refines_example = allow_refines 2 10 tries refl
