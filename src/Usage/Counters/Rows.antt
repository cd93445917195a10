-- ===== src/Usage/Counters/Rows.antt =====
-- What an upsert of credits writes, read key by key.
use natimai_tiai.Prelude.{
  ℕ, ◌+◌, ◌≤◌, ◌≡◌, true, ◌||◌, List, [], ◌∷◌, any, nat_eq, if◌then◌else◌, arith, ap, sym, ◌∙◌,
}
use natimai_tiai.Prelude.Time.{Instant}
use natimai_tiai.Usage.Counters.{
  Uptime, seconds_per_hour, has_key, put, put_all, distinct, fits, cap,
}

-- The seconds of a poste in an hour: 0 without a row.
abbrev pub seconds_of : List Uptime → ℕ → Instant → ℕ
seconds_of [] m h = 0
seconds_of (r ∷ table) m h = if has_key m h r then r.seconds_on else seconds_of table m h

-- The seconds that a list of rows adds for a key.
abbrev pub sum_at : List Uptime → ℕ → Instant → ℕ
sum_at [] m h = 0
sum_at (r ∷ rows) m h = (if has_key m h r then r.seconds_on else 0) + sum_at rows m h

-- The counters as the database keeps them: one row to a key, no row past the hour.
pub record IsValid (table : List Uptime) : Type 0 where
  pub keyed : distinct table ≡ true
  pub capped : fits table ≡ true

pub add-zero : (n : ℕ) → n + 0 ≡ n
add-zero n = omega arith

add-zero_left : (n : ℕ) → 0 + n ≡ n
add-zero_left n = omega arith

cap-le : (n : ℕ) → cap n ≤ seconds_per_hour
unfolding cap
cap-le n = omega arith

pub cap_id : (n : ℕ) → n ≤ seconds_per_hour → cap n ≡ n
unfolding cap
cap_id n h = omega arith

cap_add : (a b : ℕ) → cap (cap a + b) ≡ cap (a + b)
unfolding cap
cap_add a b = omega arith

pub seconds-le-cap :
    (table : List Uptime) (m : ℕ) (h : Instant)
    → fits table ≡ true
    → seconds_of table m h ≤ seconds_per_hour
seconds-le-cap [] m h f = omega arith
seconds-le-cap (r ∷ table) m h f = ground (arith, seconds-le-cap table m h)

fits-put :
    (table : List Uptime) (row : Uptime)
    → fits table ≡ true
    → row.seconds_on ≤ seconds_per_hour
    → fits (put table row) ≡ true
unfolding put
fits-put [] row f le = ground arith
fits-put (r ∷ table) row f le =
    ground (arith, fits-put table row, cap-le (r.seconds_on + row.seconds_on))

seconds-put :
    (table : List Uptime) (row : Uptime) (m : ℕ) (h : Instant)
    → row.seconds_on ≤ seconds_per_hour
    → seconds_of (put table row) m h ≡ (
        if has_key m h row
        then cap (seconds_of table m h + row.seconds_on)
        else seconds_of table m h)
unfolding put
seconds-put [] row m h le =
    ground (arith, cap_id row.seconds_on le, ap cap (add-zero_left row.seconds_on))
seconds-put (r ∷ table) row m h le = ground (arith, seconds-put table row m h le)

any-put :
    (table : List Uptime) (row : Uptime) (m : ℕ) (h : Instant)
    → any (has_key m h) (put table row) ≡ (has_key m h row || any (has_key m h) table)
unfolding put
any-put [] row m h = ground arith
any-put (r ∷ table) row m h = ground (arith, any-put table row m h)

distinct-put :
    (table : List Uptime) (row : Uptime) → distinct table ≡ true → distinct (put table row) ≡ true
unfolding put
distinct-put [] row d = ground arith
distinct-put (r ∷ table) row d =
    ground (arith, any-put table row r.machine_id r.hour, distinct-put table row)

pub put_all-IsValid :
    (table rows : List Uptime) → IsValid table → fits rows ≡ true → IsValid (put_all table rows)
unfolding put_all
put_all-IsValid table [] v f = v
put_all-IsValid table (row ∷ rows) v f =
    put_all-IsValid (put table row) rows
      (record {
        keyed = distinct-put table row v.keyed;
        capped = fits-put table row v.capped (ground arith);
      })
      (ground arith)

pub seconds-put_all :
    (table rows : List Uptime) (m : ℕ) (h : Instant)
    → fits table ≡ true
    → fits rows ≡ true
    → seconds_of (put_all table rows) m h ≡ cap (seconds_of table m h + sum_at rows m h)
unfolding put_all
seconds-put_all table [] m h ft f = sym (
    ap cap (add-zero (seconds_of table m h))
    ∙ cap_id (seconds_of table m h) (seconds-le-cap table m h ft))
seconds-put_all table (row ∷ rows) m h ft f = ground (
  arith,
  seconds-put_all (put table row) rows m h (fits-put table row ft (ground arith)),
  seconds-put table row m h,
  cap_add (seconds_of table m h + row.seconds_on) (sum_at rows m h),
)
