-- ===== src/Worker/Turn.antt =====
-- What one turn of the loop does with the jobs, whatever becomes of them.
use natimai_tiai.Prelude.{
  ℕ, ◌≡◌, refl, arith, if◌then◌else◌, Bool, true, false, Bool-cases, inl, inr, String, List, [],
  ◌∷◌, Option, map, select, count_where, all, ltb, ap, sym, ◌∙◌, if_elim,
}
use natimai_tiai.Prelude.Time.{Instant}
use natimai_tiai.Worker.{Job, is_due, after_tick, moved_on, run_due_jobs}

-- The next run is later than an instant, if the job runs then.
abbrev pub moves_on : Instant → Job → Bool
moves_on now j = ltb now (j.schedule now)

module _ {ℓ} {S : Type ℓ} (run : String → S → Option ℕ × S) where
  -- The runs of jobs, one after the other
  abbrev pub run_all : List Job → S → S
  run_all [] s = s
  run_all (j ∷ jobs) s = run_all jobs (run j.name s).1

  settled :
      (now : Instant) (j : Job) → moves_on now j ≡ true → is_due now (after_tick now j) ≡ false
  unfolding after_tick moved_on
  settled now j h = elim (Bool-cases (is_due now j)) [
    | inl due ↦ rw due (ground arith)
    | inr not_due ↦ rw not_due not_due
  ]

  -- A turn runs every job that is due, in their order and each once, however those before it ended;
  -- the jobs are left as if each was alone; and none is due any more at the clock of the turn,
  -- where every schedule goes on to a later instant.
  pub run_due_jobs-all :
      (now : Instant) (jobs : List Job) (s : S)
      → all (moves_on now) jobs ≡ true
      → ((run_due_jobs run now jobs s).0 ≡ map (after_tick now) jobs)
        × ((run_due_jobs run now jobs s).1 ≡ run_all (select (is_due now) jobs) s)
        × (count_where (is_due now) (run_due_jobs run now jobs s).0 ≡ 0)
  unfolding run_due_jobs
  run_due_jobs-all now [] s h = (refl, refl, refl)
  run_due_jobs-all now (j ∷ jobs) s h =
      let after = if is_due now j then (run j.name s).1 else s in
      let (moved, ran, none_due) = run_due_jobs-all now jobs after (ground arith) in
      (
        ap (λ rest. after_tick now j ∷ rest) moved,
        ran
            ∙ sym (
                if_elim
                  (λ (ready : List Job). run_all ready s ≡ run_all (select (is_due now) jobs) after)
                  (is_due now j) (j ∷ select (is_due now) jobs) (select (is_due now) jobs)
                  (λ due.
                    ap (λ x. run_all (select (is_due now) jobs) (if x then (run j.name s).1 else s))
                      (sym due))
                  (λ not_due.
                    ap (λ x. run_all (select (is_due now) jobs) (if x then (run j.name s).1 else s))
                      (sym not_due))),
        ground (arith, settled now j, none_due),
      )
