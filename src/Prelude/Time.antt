-- ===== src/Prelude/Time.antt =====
-- Instants and durations. Every stored instant is an aware UTC `datetime`, which Python counts in
-- whole microseconds from 0001-01-01T00:00:00, a Monday: an instant is that count, and a
-- `timedelta` is a number of microseconds.
use Prim.Native.Nat.{ℕ, ◌*◌}

abbrev pub Instant : Type 0
Instant = ℕ

abbrev pub second : ℕ
second = 1000000

abbrev pub hour : ℕ
hour = 3600000000

abbrev pub day : ℕ
day = 86400000000

abbrev pub seconds : ℕ → ℕ
seconds n = n * second

abbrev pub days : ℕ → ℕ
days n = n * day
