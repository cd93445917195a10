-- ===== src/Outbox/Settles.antt =====
-- The outbox over its drains.
use natimai_tiai.Prelude.{
  ℕ, ◌+◌, suc, ◌≤◌, ◌≡◌, refl, arith, Bool, true, false, ◌&&◌, List, [], ◌∷◌, leb, any, all, length,
  Bool-cases, inl, inr,
}
use natimai_tiai.Prelude.Time.{Instant, seconds}
use natimai_tiai.Outbox.{EmailOutbox, is_pending, Delivery, is_due, send_pending}
use natimai_tiai.Outbox.Drain.{left_all, is_owed_by, drained_left, drained_owed, tried-any}

-- One drain: its clock, what the provider answers to a mail, the clock after each try, and a clock
-- that none of those passes.
pub record Drain : Type 0 where
  pub now : Instant
  pub deliver : EmailOutbox → Delivery
  pub clock : EmailOutbox → Instant
  pub ended : Instant

abbrev pub is_owed : EmailOutbox → Bool
is_owed r = is_pending r.status

pending_due :
    (max_attempts t now : ℕ) (table : List EmailOutbox)
    → t ≤ now
    → all (is_owed_by max_attempts t) table ≡ true
    → any is_owed table ≡ true
    → any (is_due now) table ≡ true
pending_due max_attempts t now [] le o a = a
pending_due max_attempts t now (r ∷ table) le o a =
    ground (arith, pending_due max_attempts t now table le)

none_left :
    (max_attempts t : ℕ) (table : List EmailOutbox)
    → all (is_owed_by max_attempts t) table ≡ true
    → left_all max_attempts table ≤ 0
    → any is_owed table ≡ false
none_left max_attempts t [] o le = refl
none_left max_attempts t (r ∷ table) o le = ground (arith, none_left max_attempts t table)

none_pending :
    (max_attempts : ℕ) (table : List EmailOutbox)
    → any is_owed table ≡ false
    → left_all max_attempts table ≡ 0
none_pending max_attempts [] n = refl
none_pending max_attempts (r ∷ table) n = ground (arith, none_pending max_attempts table)

module _ (max_attempts batch_size : ℕ) where
  abbrev pub drained : Drain → List EmailOutbox → List EmailOutbox
  drained d table = (send_pending max_attempts (suc batch_size) d.deliver d.clock d.now table).0

  abbrev pub drain_all : List Drain → List EmailOutbox → List EmailOutbox
  drain_all [] table = table
  drain_all (d ∷ drains) table = drain_all drains (drained d table)

  -- Each drain begins at an instant or later, and the next an hour or more after its end.
  abbrev pub hourly : Instant → List Drain → List EmailOutbox → Bool
  hourly t [] table = true
  hourly t (d ∷ drains) table =
      leb t d.now
      && (leb d.now d.ended
          && (all (λ r. leb (d.clock r) d.ended) table
              && hourly (d.ended + seconds 3600) drains (drained d table)))

  fewer_left :
      (t : Instant) (d : Drain) (n : ℕ) (table : List EmailOutbox)
      → t ≤ d.now
      → all (is_owed_by max_attempts t) table ≡ true
      → left_all max_attempts table ≤ suc n
      → left_all max_attempts (drained d table) ≤ n
  unfolding send_pending
  fewer_left t d n table le o few =
      let tried =
        drained_left max_attempts (suc batch_size) d.deliver d.clock d.now t table table o in
      elim (Bool-cases (any is_owed table)) [
        | inl some_owed ↦
            let some_tried =
              tried-any batch_size d.now table
                (pending_due max_attempts t d.now table le o some_owed) in
            omega (arith, tried, some_tried, few)
        | inr none_owed ↦ omega (arith, tried, none_pending max_attempts table none_owed)
      ]

  still_owed :
      (t : Instant) (d : Drain) (table : List EmailOutbox)
      → t ≤ d.now
      → d.now ≤ d.ended
      → all (λ r. leb (d.clock r) d.ended) table ≡ true
      → all (is_owed_by max_attempts t) table ≡ true
      → all (is_owed_by max_attempts (d.ended + seconds 3600)) (drained d table) ≡ true
  unfolding send_pending
  still_owed t d table le ge k o =
      drained_owed max_attempts (suc batch_size) d.deliver d.clock d.now d.ended t table table o le
        ge k

  -- Where every owed mail has fewer tries behind it than the maximum and falls due by an instant, and
  -- the first drain begins at that instant or later and each other an hour or more after the one
  -- before it has ended: whatever the provider answers, after as many drains as the owed mails have
  -- tries left between them, no mail is owed any more, for each was sent or given up.
  pub drains_settle :
      (t : Instant) (drains : List Drain) (table : List EmailOutbox)
      → all (is_owed_by max_attempts t) table ≡ true
      → hourly t drains table ≡ true
      → left_all max_attempts table ≤ length drains
      → any is_owed (drain_all drains table) ≡ false
  drains_settle t [] table o h few = none_left max_attempts t table o few
  drains_settle t (d ∷ drains) table o h few =
      drains_settle (d.ended + seconds 3600) drains (drained d table)
        (still_owed t d table (ground arith) (ground arith) (ground arith) o) (ground arith)
        (fewer_left t d (length drains) table (ground arith) o few)
