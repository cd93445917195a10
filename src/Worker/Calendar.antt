-- ===== src/Worker/Calendar.antt =====
-- The schedules of the worker: when the next run is, and in which day or week.
use natimai_tiai.Prelude.{ℕ, ◌/◌, ◌≤◌, ◌<◌, ◌≡◌, arith}
use natimai_tiai.Prelude.Time.{Instant, day}
use natimai_tiai.Worker.{daily_at, weekly_at}

pub daily-lt : (h : ℕ) (now : Instant) → now < daily_at h now
unfolding daily_at
daily-lt h now = ground arith

-- Two runs of a daily job are due on different days where the first ran on its day.
pub daily-next_day :
    (h : ℕ) (x now : Instant)
    → h < 24
    → daily_at h x ≤ now
    → daily_at h x / day ≡ now / day
    → now / day < daily_at h now / day
unfolding daily_at
daily-next_day h x now hh le same = ground arith

pub weekly-lt : (w h : ℕ) (now : Instant) → now < weekly_at w h now
unfolding weekly_at
weekly-lt w h now = ground arith

pub weekly-next_week :
    (w h : ℕ) (x now : Instant)
    → w < 7
    → h < 24
    → weekly_at w h x ≤ now
    → weekly_at w h x / day / 7 ≡ now / day / 7
    → now / day / 7 < weekly_at w h now / day / 7
unfolding weekly_at
weekly-next_week w h x now ww hh le same = ground arith
