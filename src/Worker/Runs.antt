-- ===== src/Worker/Runs.antt =====
-- When the mail jobs run, over the turns of the loop.
use natimai_tiai.Prelude.{
  ℕ, ◌/◌, ◌≡◌, refl, arith, ltb, leb, if◌then◌else◌, Bool, true, not, ◌&&◌, ◌||◌, Bool-cases, inl,
  inr, String, List, [], ◌∷◌, Option, none, some, map, ◌==◌, string_eq, nat_eq, subst,
}
use natimai_tiai.Prelude.Time.{Instant, day}
use natimai_tiai.Worker.{
  Job, SchedulePolicy, Tick, period, is_due, moved_on, after_tick, re_aim, apply_to, re_aimed,
  run_log, digest_job, reminder_job,
}
use natimai_tiai.Worker.OncePerPeriod.{
  IsAimed, behind, period_mono, is_valid, daily-IsSpaced, weekly-IsSpaced, re_aimed-IsAimed,
  after_tick-IsAimed,
}

-- The clock never goes back, and every schedule read is one that the settings accept.
abbrev pub clocked : Instant → List Tick → Bool
clocked c [] = true
clocked c (t ∷ ticks) =
    leb c t.read_at && (leb t.read_at t.run_at && (is_valid t.policy && clocked t.run_at ticks))

-- Every run of the job happens in the period in which it is due.
abbrev pub timely : String → List Tick → Job → Bool
timely n [] j = true
timely n (t ∷ ticks) j =
    (not (is_due t.run_at (re_aimed t j)) || period n (re_aimed t j).next_run == period n t.run_at)
    && timely n ticks (after_tick t.run_at (re_aimed t j))

-- Each number is larger than the one before it, the first than a bound if there is one.
abbrev pub rising : Option ℕ → List ℕ → Bool
rising o [] = true
rising none (x ∷ xs) = rising (some x) xs
rising (some b) (x ∷ xs) = ltb b x && rising (some x) xs

abbrev last_period : String → Option Instant → Option ℕ
last_period n none = none
last_period n (some last) = some (period n last)

apply_to_last :
    (p : SchedulePolicy) (now : Instant) (j : Job) → (apply_to p now j).last_run ≡ j.last_run
unfolding apply_to re_aim
apply_to_last p now j = ground arith

re_aimed_last : (t : Tick) (j : Job) → (re_aimed t j).last_run ≡ j.last_run
re_aimed_last t j = go t.policy
  where
    go :
        (o : Option SchedulePolicy)
        → (elim o as (λ _. Job) [ none ↦ j | some p ↦ apply_to p t.read_at j ]).last_run
          ≡ j.last_run
    go none = refl
    go (some p) = apply_to_last p t.read_at j

rising_due :
    (n : String) (c now next : Instant) (o : Option Instant) (xs : List ℕ)
    → behind n c next o ≡ true
    → leb next now ≡ true
    → rising (some (period n now)) xs ≡ true
    → rising (last_period n o) (period n now ∷ xs) ≡ true
rising_due n c now next none xs b due r = r
rising_due n c now next (some last) xs b due r = ground (arith, period_mono n next now)

log_step :
    (n : String) (c now : Instant) (j : Job) (rest : List Instant)
    → IsAimed n c j
    → rising (last_period n (after_tick now j).last_run) (map (period n) rest) ≡ true
    → rising (last_period n j.last_run) (map (period n) (if is_due now j then now ∷ rest else rest))
      ≡ true
unfolding after_tick moved_on
log_step n c now j rest a later = elim (Bool-cases (is_due now j)) [
  | inl due ↦ rw due (
      rising_due n c now j.next_run j.last_run (map (period n) rest) a.last_behind due
        (step due later))
  | inr not_due ↦ rw not_due (step not_due later)
]
  where
    step :
        {b : Bool}
        → is_due now j ≡ b
        → rising (last_period n (after_tick now j).last_run) (map (period n) rest) ≡ true
        → rising (last_period n (if b then moved_on now j else j).last_run) (map (period n) rest)
          ≡ true
    step e h =
        subst
          (λ x.
            rising (last_period n (if x then moved_on now j else j).last_run) (map (period n) rest)
            ≡ true)
          e h

log-rising :
    (n : String) (ticks : List Tick) (c : Instant) (j : Job)
    → IsAimed n c j
    → clocked c ticks ≡ true
    → timely n ticks j ≡ true
    → rising (last_period n j.last_run) (map (period n) (run_log ticks j)) ≡ true
unfolding run_log
log-rising n [] c j a k h = refl
log-rising n (t ∷ ticks) c j a k h =
    let j' = re_aimed t j in
    let a' = re_aimed-IsAimed n t c j (ground arith) (ground arith) a in
    let a'' = after_tick-IsAimed n t.read_at t.run_at j' (ground arith) (ground arith) a' in
    let later =
      log-rising n ticks t.run_at (after_tick t.run_at j') a'' (ground arith) (ground arith) in
    subst (λ o. rising (last_period n o) (map (period n) (run_log (t ∷ ticks) j)) ≡ true)
      (re_aimed_last t j)
      (log_step n t.read_at t.run_at j' (run_log ticks (after_tick t.run_at j')) a' later)

digest-IsAimed :
    (start : Instant) (p : SchedulePolicy)
    → is_valid (some p) ≡ true
    → IsAimed "daily_digest" start (digest_job start p)
unfolding digest_job
digest-IsAimed start p v = record {
  named = refl;
  spaced = daily-IsSpaced p.digest_hour_utc (ground arith);
  due_from = (start, refl);
  last_behind = refl;
}

reminder-IsAimed :
    (start : Instant) (p : SchedulePolicy)
    → is_valid (some p) ≡ true
    → IsAimed "maintenance_reminders" start (reminder_job start p)
unfolding reminder_job
reminder-IsAimed start p v = record {
  named = refl;
  spaced = weekly-IsSpaced p.reminder_weekday p.digest_hour_utc (ground arith) (ground arith);
  due_from = (start, refl);
  last_behind = refl;
}

-- However often the console moves their hour and day, the digest never runs twice in a UTC day and
-- the reminder never twice in an ISO week, over all the turns of one process, where the clock does
-- not go back, the schedules read are valid, and each run of the two happens in the day, or the
-- week, in which it was due.
pub mail_runs-rising :
    (start : Instant) (p : SchedulePolicy) (ticks : List Tick)
    → is_valid (some p) ≡ true
    → clocked start ticks ≡ true
    → timely "daily_digest" ticks (digest_job start p) ≡ true
    → timely "maintenance_reminders" ticks (reminder_job start p) ≡ true
    → (rising none (map (λ t. t / day) (run_log ticks (digest_job start p))) ≡ true)
      × (rising none (map (λ t. t / day / 7) (run_log ticks (reminder_job start p))) ≡ true)
unfolding period digest_job reminder_job
mail_runs-rising start p ticks v k digest reminder = (
  log-rising "daily_digest" ticks start (digest_job start p) (digest-IsAimed start p v) k digest,
  log-rising "maintenance_reminders" ticks start (reminder_job start p) (reminder-IsAimed start p v)
      k reminder,
)
