-- ===== src/Command/Queue/Sweep.antt =====
-- The nightly passes over the queue, `mark_expired` and `purge_before`: what they may touch.
use natimai_tiai.Prelude.{
  ℕ, ◌≡◌, ◌+◌, refl, Bool, true, false, ◌&&◌, ◌||◌, not, Option, List, [], ◌∷◌, map, select,
  count_where, length, arith, ltb, Bool-cases, inl, inr, ap₂,
}
use natimai_tiai.Prelude.Time.{Instant}
use natimai_tiai.Command.{
  Command, CommandStatus, pending, running, delivered, succeeded, failed, expired, is_pending,
}
use natimai_tiai.Command.Result.{is_running}
use natimai_tiai.Command.Queue.{
  is_stale, expire_one, mark_expired, is_purgeable, last_event, purge_before,
}

-- A row that still waits for its machine, or runs there.
abbrev pub is_live : CommandStatus → Bool
is_live s = is_pending s || is_running s

live-kept : (s : CommandStatus) → is_live s ≡ true → is_purgeable s ≡ false
unfolding is_purgeable
live-kept pending h = refl
live-kept delivered h = cc
live-kept running h = refl
live-kept succeeded h = cc
live-kept failed h = cc
live-kept expired h = cc

-- A swept row is not stale any more.
swept : (m : Option ℕ) (now : Instant) (c : Command) → is_stale m now (expire_one m now c) ≡ false
unfolding expire_one is_stale
swept m now c = elim (Bool-cases (is_stale m now c)) [ inl e ↦ rw e refl | inr e ↦ rw e e ]

kept_by_sweep :
    (m : Option ℕ) (now : Instant) (c : Command) → is_stale m now c ≡ false → expire_one m now c ≡ c
unfolding expire_one
kept_by_sweep m now c e = rw e refl

swept_all :
    (m : Option ℕ) (now : Instant) (cs : List Command)
    → (map (expire_one m now) (map (expire_one m now) cs) ≡ map (expire_one m now) cs)
      × (count_where (is_stale m now) (map (expire_one m now) cs) ≡ 0)
swept_all m now [] = (refl, refl)
swept_all m now (c ∷ cs) =
    let (same, none_left) = swept_all m now cs in
    (
      rw (kept_by_sweep m now (expire_one m now c) (swept m now c)) (rw same refl),
      ground (arith, swept m now c, none_left),
    )

-- A second sweep at the same instant, of the whole queue or of one machine's, writes no row and
-- leaves the table as the first one left it.
pub mark_expired-settles :
    (commands : List Command) (machine_id : Option ℕ) (now : Instant)
    → mark_expired (mark_expired commands machine_id now).0 machine_id now
      ≡ ((mark_expired commands machine_id now).0, 0)
unfolding mark_expired
mark_expired-settles commands machine_id now =
    let (same, none_left) = swept_all machine_id now commands in ap₂ (λ a b. (a, b)) same none_left

purged :
    (cutoff : Instant) (cs : List Command)
    → let gone = λ (c : Command). is_purgeable c.status && ltb (last_event c) cutoff in
      (select (λ (c : Command). is_live c.status) (select (λ c. not (gone c)) cs)
        ≡ select (λ (c : Command). is_live c.status) cs)
      × (length (select (λ c. not (gone c)) cs) + count_where gone cs ≡ length cs)
purged cutoff [] = (refl, omega arith)
purged cutoff (c ∷ cs) =
    let (same, sum) = purged cutoff cs in
    (
      elim (Bool-cases (is_live c.status)) [
        | inl live ↦ ground (arith, same, live-kept c.status live)
        | inr closed ↦ ground (arith, same)
      ],
      ground (arith, sum),
    )

-- The purge, at any cutoff, keeps every pending and every running row, in their order, and the
-- count it returns is the number of rows that left the table.
pub purge_before-keeps_live :
    (commands : List Command) (cutoff : Instant)
    → (select (λ (c : Command). is_live c.status) (purge_before commands cutoff).0
        ≡ select (λ (c : Command). is_live c.status) commands)
      × (length (purge_before commands cutoff).0 + (purge_before commands cutoff).1
          ≡ length commands)
unfolding purge_before
purge_before-keeps_live commands cutoff = purged cutoff commands
