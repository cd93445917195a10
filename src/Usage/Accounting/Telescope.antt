-- ===== src/Usage/Accounting/Telescope.antt =====
-- The credits of a gap add up to its whole seconds, and so do those of a run of heartbeats.
use natimai_tiai.Prelude.{
  ℕ, zero, suc, ◌+◌, ◌-◌, ◌*◌, ◌/◌, ◌%◌, ◌≤◌, ◌<◌, ◌≡◌, min, ltb, List, [], ◌∷◌, arith, true, false,
  Bool-cases, inl, inr, if◌then◌else◌, refl, ◌⊎◌, ltb→lt, tests, subst, sym, Bool, ◌&&◌,
}
use natimai_tiai.Prelude.Time.{Instant, second, seconds, hour}
use natimai_tiai.Usage.Accounting.{hour_start, pieces, rounds, credit_for_gap}

abbrev pub total : List (Instant × ℕ) → ℕ
total [] = 0
total ((h, s) ∷ cs) = s + total cs

-- Where a round ends.
abbrev piece_end : Instant → Instant → Instant
piece_end start end = min end (hour_start start + hour)

-- A round moves on, stays within the gap, and leaves one hour less to walk.
piece_end_bounds :
    (fuel : ℕ) (start end : Instant)
    → start < end
    → end ≤ (start / hour + suc fuel) * hour
    → (start ≤ piece_end start end)
      × (piece_end start end ≤ end)
      × (piece_end start end / second - start / second ≤ 3600)
      × (end ≤ piece_end start end ⊎ end ≤ (piece_end start end / hour + fuel) * hour)
unfolding hour_start
piece_end_bounds fuel start end h enough = omega arith

-- What the rounds still have to walk fits the fuel.
abbrev Enough : ℕ → Instant → Instant → Type 0
Enough fuel start end = (end ≤ start) ⊎ (end ≤ (start / hour + fuel) * hour)

total-pieces :
    (fuel : ℕ) (start end : Instant)
    → start ≤ end
    → Enough fuel start end
    → total (pieces fuel start end) ≡ end / second - start / second
unfolding pieces
total-pieces zero start end h enough = omega arith
total-pieces (suc fuel) start end h enough = elim (Bool-cases (ltb start end)) [
  | inl more ↦
      (let (a, b, c, d) = piece_end_bounds fuel start end (ltb→lt start end more) (omega tests) in
        rw more (ground (arith, total-pieces fuel (piece_end start end) end b d)))
  | inr done ↦ rw done (ground arith)
]

-- Credits on whole hours from `lo` on and up to `end`, each hour once and in order, each of at
-- least a second and of at most an hour.
abbrev pub IsSpread : Instant → Instant → List (Instant × ℕ) → Type 0
IsSpread lo end [] = Unit
IsSpread lo end ((h, s) ∷ cs) =
    (lo ≤ h) × (h ≤ end) × (h % hour ≡ 0) × (0 < s) × (s ≤ 3600) × IsSpread (h + hour) end cs

IsSpread-weaken :
    (lo lo' end : Instant) (cs : List (Instant × ℕ))
    → lo ≤ lo'
    → IsSpread lo' end cs
    → IsSpread lo end cs
IsSpread-weaken lo lo' end [] le h = tt
IsSpread-weaken lo lo' end ((h, s) ∷ cs) le (a, b, c, d, e, f) = (omega arith, b, c, d, e, f)

pieces-done : (fuel : ℕ) (end : Instant) → pieces fuel end end ≡ []
unfolding pieces
pieces-done zero end = refl
pieces-done (suc fuel) end = ground arith

-- The next round starts on the next hour, or there is none.
next_round :
    (start end : Instant)
    → start < end
    → (piece_end start end ≡ end) ⊎ (hour_start (piece_end start end) ≡ hour_start start + hour)
unfolding hour_start
next_round start end more = omega arith

rest-IsSpread :
    (fuel : ℕ) (start end : Instant)
    → start < end
    → IsSpread (hour_start (piece_end start end)) end (pieces fuel (piece_end start end) end)
    → IsSpread (hour_start start + hour) end (pieces fuel (piece_end start end) end)
rest-IsSpread fuel start end more ih = elim (next_round start end more) [
  | inl last ↦
      subst (λ e. IsSpread (hour_start start + hour) end (pieces fuel e end)) (sym last)
        (subst (IsSpread (hour_start start + hour) end) (sym (pieces-done fuel end)) tt)
  | inr next ↦ subst (λ lo. IsSpread lo end (pieces fuel (piece_end start end) end)) next ih
]

hour_start_bounds : (start : Instant) → (hour_start start ≤ start) × (hour_start start % hour ≡ 0)
unfolding hour_start
hour_start_bounds start = omega arith

-- One round's credit, with a spread rest.
round-IsSpread :
    (start end : Instant) (secs : ℕ) (rest : List (Instant × ℕ))
    → start < end
    → secs ≤ 3600
    → IsSpread (hour_start start + hour) end rest
    → IsSpread (hour_start start) end (if ltb 0 secs then (hour_start start, secs) ∷ rest else rest)
round-IsSpread start end secs rest more small spread =
    let (low, whole) = hour_start_bounds start in
    elim (Bool-cases (ltb 0 secs)) [
      | inl some_ ↦ rw some_ (omega arith, omega arith, whole, ltb→lt 0 secs some_, small, spread)
      | inr none_ ↦ rw none_ (
          IsSpread-weaken (hour_start start) (hour_start start + hour) end rest (omega arith)
            spread)
    ]

pieces-IsSpread :
    (fuel : ℕ) (start end : Instant)
    → start ≤ end
    → Enough fuel start end
    → IsSpread (hour_start start) end (pieces fuel start end)
unfolding pieces
pieces-IsSpread zero start end h enough = tt
pieces-IsSpread (suc fuel) start end h enough = elim (Bool-cases (ltb start end)) [
  | inl more ↦
      (let lt = ltb→lt start end more in
        let (a, b, c, d) = piece_end_bounds fuel start end lt (omega tests) in
        rw more (
          round-IsSpread start end (piece_end start end / second - start / second)
            (pieces fuel (piece_end start end) end) lt c
            (rest-IsSpread fuel start end lt (pieces-IsSpread fuel (piece_end start end) end b d))))
  | inr done ↦ rw done tt
]

-- A gap that the server reads as "on all along": positive and short of the window.
abbrev pub is_short : ℕ → Instant → Instant → Bool
is_short offline previous now = ltb previous now && ltb (now - previous) (seconds offline)

module _ (offline : ℕ) where
  credit-short :
      (previous now : Instant)
      → is_short offline previous now ≡ true
      → credit_for_gap previous now offline ≡ pieces (rounds previous now) previous now
  unfolding credit_for_gap
  credit-short previous now h = ground arith

  -- A gap that is not short credits nothing: a clock step, a duplicate, a hole.
  pub credit-hole :
      (previous now : Instant)
      → is_short offline previous now ≡ false
      → credit_for_gap previous now offline ≡ []
  unfolding credit_for_gap
  credit-hole previous now h = ground arith

  pub credit-total :
      (previous now : Instant)
      → is_short offline previous now ≡ true
      → total (credit_for_gap previous now offline) ≡ now / second - previous / second
  credit-total previous now h =
      rw (credit-short previous now h)
        (total-pieces (rounds previous now) previous now (ground arith) (inr (ground arith)))

  -- The credits of one gap fall on whole hours, each once and in order, from the hour of the first
  -- beat to the instant of the second, and no hour is credited more than 3600 seconds.
  pub credit-IsSpread :
      (previous now : Instant)
      → IsSpread (hour_start previous) now (credit_for_gap previous now offline)
  credit-IsSpread previous now = elim (Bool-cases (is_short offline previous now)) [
    | inl h ↦
        rw (credit-short previous now h)
          (pieces-IsSpread (rounds previous now) previous now (ground arith) (inr (ground arith)))
    | inr h ↦ rw (credit-hole previous now h) tt
  ]
