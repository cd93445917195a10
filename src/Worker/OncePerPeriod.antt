-- ===== src/Worker/OncePerPeriod.antt =====
-- A mail job and its periods: the UTC days of the digest, the ISO weeks of the reminder.
use natimai_tiai.Prelude.{
  ℕ, ◌≤◌, ◌<◌, ◌≡◌, refl, arith, ltb, leb, Bool, true, not, ◌&&◌, ◌||◌, String, List, Option, none,
  some, ◌==◌, string_eq, nat_eq, ==_sound, subst, sym, ap, if_elim, ◌∙◌,
}
use natimai_tiai.Prelude.Time.{Instant}
use natimai_tiai.Worker.{
  Job, SchedulePolicy, Tick, daily_at, weekly_at, period, same_period, put_off, re_aim, apply_to,
  is_due, moved_on, after_tick, re_aimed, has_params, digest_params, reminder_params,
}
use natimai_tiai.Worker.Calendar.{daily-lt, daily-next_day, weekly-lt, weekly-next_week}

-- A schedule and the period of a job: the next run is later, and a run in the period where it was
-- due leaves that period behind.
pub record IsSpaced (n : String) (s : Instant → Instant) : Type 0 where
  pub later : (now : Instant) → now < s now
  pub leaves :
      (x now : Instant)
      → s x ≤ now
      → period n (s x) ≡ period n now
      → period n now < period n (s now)

pub daily-IsSpaced : (h : ℕ) → h < 24 → IsSpaced "daily_digest" (daily_at h)
unfolding period
daily-IsSpaced h hh = record { later = daily-lt h; leaves = λ x now. daily-next_day h x now hh }

pub weekly-IsSpaced : (w h : ℕ) → w < 7 → h < 24 → IsSpaced "maintenance_reminders" (weekly_at w h)
unfolding period
weekly-IsSpaced w h ww hh = record {
  later = weekly-lt w h;
  leaves = λ x now. weekly-next_week w h x now ww hh;
}

pub period_mono : (n : String) (a b : Instant) → a ≤ b → period n a ≤ period n b
unfolding period
period_mono n a b le = ground arith

-- The last run, if any, is past and in a period before that of an instant.
abbrev pub behind : String → Instant → Instant → Option Instant → Bool
behind n clock next none = true
behind n clock next (some last) = leb last clock && ltb (period n last) (period n next)

-- A mail job between two turns of the loop.
pub record IsAimed (n : String) (clock : Instant) (j : Job) : Type 0 where
  pub named : j.name ≡ n
  pub spaced : IsSpaced n j.schedule
  pub due_from : (x : Instant) × (j.schedule x ≡ j.next_run)
  pub last_behind : behind n clock j.next_run j.last_run ≡ true

behind-later :
    (n : String) (c now next : Instant) (o : Option Instant)
    → c ≤ now
    → behind n c next o ≡ true
    → behind n now next o ≡ true
behind-later n c now next none le b = refl
behind-later n c now next (some last) le b = ground arith

put_off-behind :
    (n : String) (s : Instant → Instant) (c now next : Instant) (o : Option Instant)
    → IsSpaced n s
    → c ≤ now
    → behind n c next o ≡ true
    → behind n now (put_off n s (s now) o) o ≡ true
unfolding same_period
put_off-behind n s c now next none sp le b = refl
put_off-behind n s c now next (some last) sp le b =
    ground (arith, sp.later now, period_mono n last (s now), sp.leaves now (s now))

put_off_due :
    (n : String) (s : Instant → Instant) (now : Instant) (o : Option Instant)
    → (x : Instant) × (s x ≡ put_off n s (s now) o)
put_off_due n s now none = (now, refl)
put_off_due n s now (some last) =
    if_elim (λ next. (x : Instant) × (s x ≡ next)) (same_period n last (s now)) (s (s now)) (s now)
      (λ _. (s now, refl)) (λ _. (now, refl))

clock_moves : (n : String) (c now : Instant) (j : Job) → c ≤ now → IsAimed n c j → IsAimed n now j
clock_moves n c now j le a = record {
  named = a.named;
  spaced = a.spaced;
  due_from = a.due_from;
  last_behind = behind-later n c now j.next_run j.last_run le a.last_behind;
}

re_aim-IsAimed :
    (n : String) (params : List ℕ) (s : Instant → Instant) (c now : Instant) (j : Job)
    → IsSpaced n s
    → c ≤ now
    → IsAimed n c j
    → IsAimed n now (re_aim params s now j)
unfolding re_aim
re_aim-IsAimed n params s c now j sp le a =
    if_elim (IsAimed n now) (has_params j.params params) _ _ (λ _. clock_moves n c now j le a)
      (λ _. record {
        named = a.named;
        spaced = sp;
        due_from =
            subst (λ m. (x : Instant) × (s x ≡ put_off m s (s now) j.last_run)) (sym a.named)
              (put_off_due n s now j.last_run);
        last_behind =
            subst (λ m. behind n now (put_off m s (s now) j.last_run) j.last_run ≡ true)
              (sym a.named) (put_off-behind n s c now j.next_run j.last_run sp le a.last_behind);
      })

leaves_behind :
    (n : String) (s : Instant → Instant) (next x now : Instant)
    → IsSpaced n s
    → s x ≡ next
    → leb next now ≡ true
    → (not (leb next now) || period n next == period n now) ≡ true
    → behind n now (s now) (some now) ≡ true
leaves_behind n s next x now sp e due timely = ground (arith, e, ap (period n) e, sp.leaves x now)

pub after_tick-IsAimed :
    (n : String) (c now : Instant) (j : Job)
    → c ≤ now
    → (not (is_due now j) || period n j.next_run == period n now) ≡ true
    → IsAimed n c j
    → IsAimed n now (after_tick now j)
unfolding after_tick moved_on
after_tick-IsAimed n c now j le timely a =
    if_elim (IsAimed n now) (is_due now j) _ _
      (λ due. record {
        named = a.named;
        spaced = a.spaced;
        due_from = (now, refl);
        last_behind =
            let (x, e) = a.due_from in
            leaves_behind n j.schedule j.next_run x now a.spaced e due timely;
      })
      (λ _. clock_moves n c now j le a)

-- A schedule that the settings accept
abbrev pub is_valid : Option SchedulePolicy → Bool
is_valid none = true
is_valid (some p) = ltb p.digest_hour_utc 24 && ltb p.reminder_weekday 7

apply_to-IsAimed :
    (n : String) (p : SchedulePolicy) (c now : Instant) (j : Job)
    → is_valid (some p) ≡ true
    → c ≤ now
    → IsAimed n c j
    → IsAimed n now (apply_to p now j)
unfolding apply_to
apply_to-IsAimed n p c now j v le a =
    if_elim (IsAimed n now) (j.name == "daily_digest") _ _
      (λ digest.
        re_aim-IsAimed n (digest_params p) (daily_at p.digest_hour_utc) c now j
          (subst (λ m. IsSpaced m (daily_at p.digest_hour_utc))
            (sym (==_sound j.name "daily_digest" digest) ∙ a.named)
            (daily-IsSpaced p.digest_hour_utc (ground arith)))
          le a)
      (λ _.
        if_elim (IsAimed n now) (j.name == "maintenance_reminders") _ _
          (λ reminder.
            re_aim-IsAimed n (reminder_params p) (weekly_at p.reminder_weekday p.digest_hour_utc) c
              now j
              (subst (λ m. IsSpaced m (weekly_at p.reminder_weekday p.digest_hour_utc))
                (sym (==_sound j.name "maintenance_reminders" reminder) ∙ a.named)
                (weekly-IsSpaced p.reminder_weekday p.digest_hour_utc (ground arith)
                  (ground arith)))
              le a)
          (λ _. clock_moves n c now j le a))

pub re_aimed-IsAimed :
    (n : String) (t : Tick) (c : Instant) (j : Job)
    → is_valid t.policy ≡ true
    → c ≤ t.read_at
    → IsAimed n c j
    → IsAimed n t.read_at (re_aimed t j)
re_aimed-IsAimed n t c j v le a = go t.policy v
  where
    go :
        (o : Option SchedulePolicy)
        → is_valid o ≡ true
        → IsAimed n t.read_at (elim o [ none ↦ j | some p ↦ apply_to p t.read_at j ])
    go none v = clock_moves n c t.read_at j le a
    go (some p) v = apply_to-IsAimed n p c t.read_at j v le a
