-- ===== src/Usage/Counters.antt =====
-- backend/app/features/usage/crud.py and models.py: the hourly counters. An upsert statement is run
-- whole or refused: PostgreSQL refuses one that touches a row twice, and the CHECK on `seconds_on`
-- refuses one that leaves a row past the hour.
pub mod Rows
pub mod Heartbeat
pub mod Merge
use natimai_tiai.Prelude.{
  ℕ, ◌+◌, min, ltb, leb, Bool, true, ◌&&◌, not, Option, none, some, List, [], ◌∷◌, map, all, any,
  select, ◌==◌, nat_eq, if◌then◌else◌,
}
use natimai_tiai.Prelude.Time.{Instant}

abbrev pub seconds_per_hour : ℕ
seconds_per_hour = 3600

pub record Uptime : Type 0 where
  pub machine_id : ℕ
  pub hour : Instant
  pub seconds_on : ℕ

abbrev pub has_key : ℕ → Instant → Uptime → Bool
has_key m h r = (m == r.machine_id) && (h == r.hour)

-- `least(SECONDS_PER_HOUR, n)`
pub cap : ℕ → ℕ
cap n = min seconds_per_hour n

-- One row of `_upsert_adding`: inserted, or added to the row of its key and capped.
pub put : List Uptime → Uptime → List Uptime
put [] row = row ∷ []
put (r ∷ table) row =
    if has_key row.machine_id row.hour r
    then record r { seconds_on = cap (r.seconds_on + row.seconds_on) } ∷ table
    else r ∷ put table row

pub put_all : List Uptime → List Uptime → List Uptime
unfolding put
put_all table [] = table
put_all table (row ∷ rows) = put_all (put table row) rows

-- No two rows of one statement have the same key.
abbrev pub distinct : List Uptime → Bool
distinct [] = true
distinct (row ∷ rows) = not (any (has_key row.machine_id row.hour) rows) && distinct rows

-- The CHECK of the table
abbrev pub fits : List Uptime → Bool
fits = all (λ (r : Uptime). leb r.seconds_on seconds_per_hour)

-- `_upsert_adding`
pub upsert_adding : List Uptime → List Uptime → Option (List Uptime)
unfolding put_all
upsert_adding table rows =
    let table' = put_all table rows in if distinct rows && fits table' then some table' else none

abbrev pub credit_rows : ℕ → List (Instant × ℕ) → List Uptime
credit_rows m [] = []
credit_rows m ((h, s) ∷ credits) =
    record { machine_id = m; hour = h; seconds_on = s } ∷ credit_rows m credits

-- `record`: no statement at all for no credit
pub record_credits : List Uptime → ℕ → List (Instant × ℕ) → Option (List Uptime)
record_credits table m [] = some table
record_credits table m (c ∷ cs) = upsert_adding table (credit_rows m (c ∷ cs))

-- `move_to`: the source's rows under the target's identifier, then the source's rows dropped
pub move_to : List Uptime → ℕ → ℕ → Option (List Uptime)
move_to table source target =
    let source_rows =
      map (λ (r : Uptime). record r { machine_id = target })
        (select (λ (r : Uptime). r.machine_id == source) table) in
    elim (upsert_adding table source_rows) [
      | none ↦ none
      | some table' ↦ some (select (λ (r : Uptime). not (r.machine_id == source)) table')
    ]

-- `purge_before`
pub purge_before : List Uptime → Instant → List Uptime
purge_before table cutoff = select (λ (r : Uptime). not (ltb r.hour cutoff)) table
