-- ===== src/Usage/Counters/Heartbeat.antt =====
-- The upsert of a heartbeat's credits is never refused, and adds them, capped at the hour.
use natimai_tiai.Prelude.{
  ℕ, ◌+◌, ◌<◌, ◌≡◌, refl, true, false, some, List, [], ◌∷◌, any, ◌==◌, nat_eq, if◌then◌else◌, arith,
  Bool-cases, inl, inr, ap, ◌∙◌,
}
use natimai_tiai.Prelude.Time.{Instant, hour}
use natimai_tiai.Usage.Accounting.{credit_for_gap, hour_start}
use natimai_tiai.Usage.Accounting.Telescope.{IsSpread, credit-IsSpread}
use natimai_tiai.Usage.Counters.{
  Uptime, has_key, put_all, distinct, fits, upsert_adding, credit_rows, record_credits, cap,
}
use natimai_tiai.Usage.Counters.Rows.{
  seconds_of, sum_at, IsValid, cap_id, add-zero, seconds-le-cap, put_all-IsValid, seconds-put_all,
}

-- The seconds that a heartbeat credits to an hour.
abbrev pub credit_at : List (Instant × ℕ) → Instant → ℕ
credit_at [] h = 0
credit_at ((g, s) ∷ cs) h = (if h == g then s else 0) + credit_at cs h

module _ (m : ℕ) (end : Instant) where
  -- Hours before the spread have no row.
  absent-credit_rows :
      (lo h : Instant) (cs : List (Instant × ℕ))
      → IsSpread lo end cs
      → h < lo
      → any (has_key m h) (credit_rows m cs) ≡ false
  absent-credit_rows lo h [] spread lt = refl
  absent-credit_rows lo h ((g, s) ∷ cs) (a, b, c, d, e, f) lt =
      ground (arith, absent-credit_rows (g + hour) h cs f)

  distinct-credit_rows :
      (lo : Instant) (cs : List (Instant × ℕ))
      → IsSpread lo end cs
      → distinct (credit_rows m cs) ≡ true
  distinct-credit_rows lo [] spread = refl
  distinct-credit_rows lo ((g, s) ∷ cs) (a, b, c, d, e, f) =
      ground (arith, absent-credit_rows (g + hour) g cs f, distinct-credit_rows (g + hour) cs f)

  fits-credit_rows :
      (lo : Instant) (cs : List (Instant × ℕ)) → IsSpread lo end cs → fits (credit_rows m cs) ≡ true
  fits-credit_rows lo [] spread = refl
  fits-credit_rows lo ((g, s) ∷ cs) (a, b, c, d, e, f) =
      ground (arith, fits-credit_rows (g + hour) cs f)

sum_at-credit_rows :
    (m k : ℕ) (h : Instant) (cs : List (Instant × ℕ))
    → sum_at (credit_rows m cs) k h ≡ (if k == m then credit_at cs h else 0)
sum_at-credit_rows m k h [] = ground arith
sum_at-credit_rows m k h ((g, s) ∷ cs) = ground (arith, sum_at-credit_rows m k h cs)

pub upsert-put_all :
    (table rows : List Uptime)
    → distinct rows ≡ true
    → fits (put_all table rows) ≡ true
    → upsert_adding table rows ≡ some (put_all table rows)
unfolding upsert_adding
upsert-put_all table rows d f = ground arith

record-put_all :
    (table : List Uptime) (m : ℕ) (lo end : Instant) (cs : List (Instant × ℕ))
    → IsValid table
    → IsSpread lo end cs
    → record_credits table m cs ≡ some (put_all table (credit_rows m cs))
unfolding record_credits
record-put_all table m lo end [] v spread = unfold put_all in refl
record-put_all table m lo end (c ∷ cs) v spread =
    upsert-put_all table (credit_rows m (c ∷ cs)) (distinct-credit_rows m end lo (c ∷ cs) spread)
      (put_all-IsValid table (credit_rows m (c ∷ cs)) v
        (fits-credit_rows m end lo (c ∷ cs) spread)).capped

credited :
    (table : List Uptime) (m k : ℕ) (h : Instant) (cs : List (Instant × ℕ))
    → fits table ≡ true
    → cap (seconds_of table k h + sum_at (credit_rows m cs) k h)
      ≡ (if k == m then cap (seconds_of table k h + credit_at cs h) else seconds_of table k h)
credited table m k h cs f = elim (Bool-cases (k == m)) [
  | inl same ↦ rw (sum_at-credit_rows m k h cs, same)
  | inr other ↦
      rw (sum_at-credit_rows m k h cs, other)
        (ap cap (add-zero (seconds_of table k h))
          ∙ cap_id (seconds_of table k h) (seconds-le-cap table k h f))
]

-- Recording what a heartbeat credits never fails on valid counters: the statement touches no row
-- twice and leaves none past the hour, the counters stay valid, and every hour of the poste grows
-- by its credit, capped at 3600 seconds, while the hours of the other postes stay as they are.
pub record_heartbeat :
    (table : List Uptime) (m : ℕ) (previous now : Instant) (offline : ℕ)
    → IsValid table
    → let credits = credit_for_gap previous now offline in
      (table' : List Uptime) × (record_credits table m credits ≡ some table')
      × IsValid table'
      × ((k : ℕ) (h : Instant)
          → seconds_of table' k h ≡ (
              if k == m
              then cap (seconds_of table k h + credit_at credits h)
              else seconds_of table k h))
record_heartbeat table m previous now offline v =
    let cs = credit_for_gap previous now offline in
    let spread = credit-IsSpread offline previous now in
    let f = fits-credit_rows m now (hour_start previous) cs spread in
    (
      put_all table (credit_rows m cs),
      record-put_all table m (hour_start previous) now cs v spread,
      put_all-IsValid table (credit_rows m cs) v f,
      λ k h.
          seconds-put_all table (credit_rows m cs) k h v.capped f
          ∙ credited table m k h cs v.capped,
    )
