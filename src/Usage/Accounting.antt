-- ===== src/Usage/Accounting.antt =====
-- backend/app/features/usage/accounting.py: two consecutive heartbeats as seconds on, hour by hour.
-- A naive instant, which the code refuses, is not an `Instant`. `math.floor(t.timestamp())` is the
-- number of whole seconds of an instant, up to a constant that the differences cancel.
pub mod Telescope
pub mod Runs
use natimai_tiai.Prelude.{
  ℕ, zero, suc, ◌+◌, ◌-◌, ◌*◌, ◌/◌, min, ltb, leb, ◌||◌, List, [], ◌∷◌, if◌then◌else◌,
}
use natimai_tiai.Prelude.Time.{Instant, second, seconds, hour}

pub hour_start : Instant → Instant
hour_start i = i / hour * hour

-- The loop of `credit_for_gap`, from `start`, on fuel.
pub pieces : ℕ → Instant → Instant → List (Instant × ℕ)
unfolding hour_start
pieces zero start end = []
pieces (suc fuel) start end =
    let h = hour_start start in
    let piece_end = min end (h + hour) in
    let secs = piece_end / second - start / second in
    let rest = pieces fuel piece_end end in
    if ltb start end then (if ltb 0 secs then (h, secs) ∷ rest else rest) else []

-- Every round but the last ends on the next whole hour.
abbrev pub rounds : Instant → Instant → ℕ
rounds start end = end / hour - start / hour + 1

pub credit_for_gap : Instant → Instant → ℕ → List (Instant × ℕ)
unfolding pieces
credit_for_gap previous now offline_after_seconds =
    if leb now previous || leb (seconds offline_after_seconds) (now - previous)
    then []
    else pieces (rounds previous now) previous now
