-- ===== src/Outbox/Drain.antt =====
-- One drain of the outbox: what it tries, and what that leaves to try.
use natimai_tiai.Prelude.{
  ℕ, ◌+◌, ◌-◌, suc, ◌≤◌, ◌≡◌, refl, arith, Bool, true, not, ◌&&◌, ◌||◌, List, [], ◌∷◌, map, leb,
  ltb, select, sort_on, any, any-sort_on, any-select, any-select_self, counted-any, all,
  count_where, nat_eq, string_eq, ◌==◌, ==_refl, if◌then◌else◌, ap, sym, ◌∙◌,
}
use natimai_tiai.Prelude.Time.{Instant, seconds}
use natimai_tiai.Outbox.{
  EmailOutbox, is_pending, retry_delay, retry_max_seconds, Delivery, try_row, is_due, is_tried,
  batch, drained_row,
}

-- The tries that a mail has left
abbrev pub left : ℕ → EmailOutbox → ℕ
left max_attempts r = if is_pending r.status then max_attempts - r.attempts else 0

abbrev pub left_all : ℕ → List EmailOutbox → ℕ
left_all max_attempts [] = 0
left_all max_attempts (r ∷ table) = left max_attempts r + left_all max_attempts table

-- A mail that is owed has a try left, and is due at an instant.
abbrev pub is_owed_by : ℕ → Instant → EmailOutbox → Bool
is_owed_by max_attempts t r =
    not (is_pending r.status) || (ltb r.attempts max_attempts && leb r.next_attempt_at t)

retry-le : (n : ℕ) → retry_delay n ≤ seconds 3600
unfolding retry_delay retry_max_seconds
retry-le n = omega arith

try-left :
    (max_attempts : ℕ) (now t : Instant) (d : Delivery) (r : EmailOutbox)
    → is_pending r.status ≡ true
    → is_owed_by max_attempts t r ≡ true
    → left max_attempts (try_row max_attempts now d r) + 1 ≤ left max_attempts r
unfolding try_row
try-left max_attempts now t d r p o = ground arith

try_owed :
    (max_attempts : ℕ) (now end : Instant) (d : Delivery) (r : EmailOutbox)
    → is_pending r.status ≡ true
    → now ≤ end
    → is_owed_by max_attempts (end + seconds 3600) (try_row max_attempts now d r) ≡ true
unfolding try_row
try_owed max_attempts now end d r p le = ground (arith, retry-le (suc r.attempts))

module _ (max_attempts batch_size : ℕ) (deliver : EmailOutbox → Delivery)
    (clock : EmailOutbox → Instant) where
  pub drained_left :
      (now t : Instant) (table rows : List EmailOutbox)
      → all (is_owed_by max_attempts t) rows ≡ true
      → left_all max_attempts
            (map (drained_row max_attempts batch_size deliver clock now table) rows)
          + count_where (is_tried batch_size now table) rows
        ≤ left_all max_attempts rows
  unfolding drained_row
  drained_left now t table [] o = omega arith
  drained_left now t table (r ∷ rows) o =
      ground (arith, drained_left now t table rows, try-left max_attempts (clock r) t (deliver r) r)

  pub drained_owed :
      (now end t : Instant) (table rows : List EmailOutbox)
      → all (is_owed_by max_attempts t) rows ≡ true
      → t ≤ now
      → now ≤ end
      → all (λ r. leb (clock r) end) rows ≡ true
      → all
          (is_owed_by max_attempts (end + seconds 3600))
          (map (drained_row max_attempts batch_size deliver clock now table) rows)
        ≡ true
  unfolding drained_row
  drained_owed now end t table [] o le ge k = refl
  drained_owed now end t table (r ∷ rows) o le ge k =
      ground (
        arith,
        drained_owed now end t table rows,
        try_owed max_attempts (clock r) end (deliver r) r,
      )

head_tried :
    (batch_size : ℕ) (now : Instant) (table sorted : List EmailOutbox)
    → sort_on (λ (r : EmailOutbox). r.created_at) (select (is_due now) table) ≡ sorted
    → any (is_due now) sorted ≡ true
    → 1 ≤ count_where (is_tried (suc batch_size) now table) table
unfolding batch
head_tried n now table [] e a = ground arith
head_tried n now table (y ∷ ys) e a =
    let has_id = λ (r : EmailOutbox). r.id == y.id in
    counted-any (λ r. is_due now r && has_id r) (is_tried (suc n) now table) table
      (λ r h. rw e (ground (arith, h)))
      (sym (any-select (is_due now) has_id table)
        ∙ sym (any-sort_on (λ (r : EmailOutbox). r.created_at) has_id (select (is_due now) table))
        ∙ ap (any has_id) e
        ∙ ground (arith, ==_refl y.id))

-- A drain that finds a mail due tries one.
pub tried-any :
    (batch_size : ℕ) (now : Instant) (table : List EmailOutbox)
    → any (is_due now) table ≡ true
    → 1 ≤ count_where (is_tried (suc batch_size) now table) table
tried-any n now table a =
    head_tried n now table (sort_on (λ (r : EmailOutbox). r.created_at) (select (is_due now) table))
      refl
      (any-sort_on (λ (r : EmailOutbox). r.created_at) (is_due now) (select (is_due now) table)
        ∙ any-select_self (is_due now) table
        ∙ a)
