-- ===== src/Usage/Accounting/Runs.antt =====
-- The credits of a run of heartbeats.
use natimai_tiai.Prelude.{
  ℕ, ◌+◌, ◌-◌, ◌/◌, ◌≤◌, ◌≡◌, List, [], ◌∷◌, arith, true, Bool, ◌&&◌, and_true,
}
use natimai_tiai.Prelude.Time.{Instant, second}
use natimai_tiai.Usage.Accounting.{credit_for_gap}
use natimai_tiai.Usage.Accounting.Telescope.{total, is_short, credit-total}

module _ (offline : ℕ) where
  -- A run of heartbeats, the first one first: the last beat, and whether every gap is short.
  abbrev pub last_beat : Instant → List Instant → Instant
  last_beat t [] = t
  last_beat t (u ∷ us) = last_beat u us

  abbrev pub all_short : Instant → List Instant → Bool
  all_short t [] = true
  all_short t (u ∷ us) = is_short offline t u && all_short u us

  -- The seconds credited over a run.
  abbrev pub run_total : Instant → List Instant → ℕ
  run_total t [] = 0
  run_total t (u ∷ us) = total (credit_for_gap t u offline) + run_total u us

  run_grows :
      (t : Instant) (beats : List Instant) → all_short t beats ≡ true → t ≤ last_beat t beats
  run_grows t [] h = omega arith
  run_grows t (u ∷ us) h = ground (arith, run_grows u us)

  -- The credits of a run of heartbeats whose gaps are all short add up to the run's span, to the
  -- second, however many beats and hours it has.
  pub run_telescopes :
      (t : Instant) (beats : List Instant)
      → all_short t beats ≡ true
      → run_total t beats ≡ last_beat t beats / second - t / second
  run_telescopes t [] h = omega arith
  run_telescopes t (u ∷ us) h =
      let (short, rest) = and_true (is_short offline t u) (all_short u us) h in
      let le = run_grows u us rest in
      let tu : t ≤ u = ground arith in
      omega (arith, credit-total offline t u short, run_telescopes u us rest)
