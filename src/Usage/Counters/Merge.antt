-- ===== src/Usage/Counters/Merge.antt =====
-- Folding a duplicate's counters into the record that is kept.
use natimai_tiai.Prelude.{
  ℕ, ◌+◌, ◌≡◌, ◌≢◌, refl, true, false, not, none, some, List, [], ◌∷◌, map, Bool-cases, inl, inr,
  ==_sound, ◌∙◌, select, any, ◌==◌, nat_eq, if◌then◌else◌, arith, ap,
}
use natimai_tiai.Prelude.Time.{Instant}
use natimai_tiai.Usage.Counters.{Uptime, has_key, put_all, distinct, fits, move_to, cap}
use natimai_tiai.Usage.Counters.Rows.{
  seconds_of, sum_at, IsValid, cap_id, add-zero, seconds-le-cap, put_all-IsValid, seconds-put_all,
}
use natimai_tiai.Usage.Counters.Heartbeat.{upsert-put_all}

differs : {a b : ℕ} → (a == b) ≡ false → a ≢ b
differs e = ground arith

module _ (source target : ℕ) where
  -- The rows that the statement selects.
  abbrev moved : List Uptime → List Uptime
  moved table =
      map (λ (r : Uptime). record r { machine_id = target })
        (select (λ (r : Uptime). r.machine_id == source) table)

  any-moved :
      (table : List Uptime) (h : Instant)
      → any (has_key target h) (moved table) ≡ any (has_key source h) table
  any-moved [] h = refl
  any-moved (r ∷ table) h = ground (arith, any-moved table h)

  distinct-moved : (table : List Uptime) → distinct table ≡ true → distinct (moved table) ≡ true
  distinct-moved [] d = refl
  distinct-moved (r ∷ table) d = ground (arith, any-moved table r.hour, distinct-moved table)

  fits-moved : (table : List Uptime) → fits table ≡ true → fits (moved table) ≡ true
  fits-moved [] f = refl
  fits-moved (r ∷ table) f = ground (arith, fits-moved table)

  sum_at-absent :
      (table : List Uptime) (h : Instant)
      → any (has_key source h) table ≡ false
      → sum_at (moved table) target h ≡ 0
  sum_at-absent [] h a = refl
  sum_at-absent (r ∷ table) h a = ground (arith, sum_at-absent table h)

  sum_at-moved :
      (table : List Uptime) (h : Instant)
      → distinct table ≡ true
      → sum_at (moved table) target h ≡ seconds_of table source h
  sum_at-moved [] h d = refl
  sum_at-moved (r ∷ table) h d = ground (arith, sum_at-moved table h, sum_at-absent table h)

  sum_at-others :
      (table : List Uptime) (m : ℕ) (h : Instant) → m ≢ target → sum_at (moved table) m h ≡ 0
  sum_at-others [] m h ne = refl
  sum_at-others (r ∷ table) m h ne = ground (arith, sum_at-others table m h ne)

  abbrev kept : List Uptime → List Uptime
  kept = select (λ (r : Uptime). not (r.machine_id == source))

  seconds-kept :
      (table : List Uptime) (m : ℕ) (h : Instant)
      → seconds_of (kept table) m h ≡ (if m == source then 0 else seconds_of table m h)
  seconds-kept [] m h = ground arith
  seconds-kept (r ∷ table) m h = ground (arith, seconds-kept table m h)

  any-kept :
      (table : List Uptime) (m : ℕ) (h : Instant)
      → any (has_key m h) table ≡ false
      → any (has_key m h) (kept table) ≡ false
  any-kept [] m h a = refl
  any-kept (r ∷ table) m h a = ground (arith, any-kept table m h)

  move_to-kept :
      (table : List Uptime)
      → IsValid table
      → move_to table source target ≡ some (kept (put_all table (moved table)))
  unfolding move_to
  move_to-kept table v =
      ap (λ o. elim o [ none ↦ none | some t ↦ some (kept t) ])
        (upsert-put_all table (moved table) (distinct-moved table v.keyed)
          (put_all-IsValid table (moved table) v (fits-moved table v.capped)).capped)

  kept-IsValid :
      (table : List Uptime) → distinct table ≡ true → fits table ≡ true → IsValid (kept table)
  kept-IsValid [] d f = record { keyed = refl; capped = refl }
  kept-IsValid (r ∷ table) d f =
      let v = kept-IsValid table (ground arith) (ground arith) in
      record {
        keyed = ground (arith, v.keyed, any-kept table r.machine_id r.hour);
        capped = ground (arith, v.capped);
      }

  after : List Uptime → List Uptime
  after table = kept (put_all table (moved table))

  at_source : (table : List Uptime) (h : Instant) → seconds_of (after table) source h ≡ 0
  unfolding after
  at_source table h = ground (arith, seconds-kept (put_all table (moved table)) source h)

  at_target :
      (table : List Uptime) (h : Instant)
      → source ≢ target
      → IsValid table
      → seconds_of (after table) target h
        ≡ cap (seconds_of table target h + seconds_of table source h)
  unfolding after
  at_target table h ne v = ground (
    arith,
    seconds-kept (put_all table (moved table)) target h,
    seconds-put_all table (moved table) target h v.capped (fits-moved table v.capped),
    sum_at-moved table h v.keyed,
  )

  elsewhere :
      (table : List Uptime) (m : ℕ) (h : Instant)
      → IsValid table
      → m ≢ source
      → m ≢ target
      → seconds_of (after table) m h ≡ seconds_of table m h
  unfolding after
  elsewhere table m h v ns nt = ground (
    arith,
    seconds-kept (put_all table (moved table)) m h,
    seconds-put_all table (moved table) m h v.capped (fits-moved table v.capped),
    ap (λ n. cap (seconds_of table m h + n)) (sum_at-others table m h nt),
    ap cap (add-zero (seconds_of table m h)),
    cap_id (seconds_of table m h) (seconds-le-cap table m h v.capped),
  )

  -- The cases of a poste: the duplicate, the poste kept, and any other.
  counted :
      (table : List Uptime) (m : ℕ) (h : Instant)
      → source ≢ target
      → IsValid table
      → seconds_of (after table) m h ≡ (
          if m == source
          then 0
          else if m == target
          then cap (seconds_of table target h + seconds_of table source h)
          else seconds_of table m h)
  counted table m h ne v = elim (Bool-cases (m == source)) [
    | inl gone ↦
        rw gone
          (ap (λ k. seconds_of (after table) k h) (==_sound m source gone) ∙ at_source table h)
    | inr other ↦ elim (Bool-cases (m == target)) [
      | inl into ↦ rw other (
          rw into (
            ap (λ k. seconds_of (after table) k h) (==_sound m target into)
            ∙ at_target table h ne v))
      | inr apart ↦ rw other (rw apart (elsewhere table m h v (differs other) (differs apart)))
    ]
  ]

  -- Merging a duplicate never fails on valid counters: afterwards the counters are valid, every
  -- hour of the kept poste holds its own and the duplicate's seconds, capped at 3600, the
  -- duplicate has none left, and the other postes keep theirs.
  pub merge_counters :
      (table : List Uptime)
      → source ≢ target
      → IsValid table
      → (table' : List Uptime) × (move_to table source target ≡ some table')
        × IsValid table'
        × ((m : ℕ) (h : Instant)
            → seconds_of table' m h ≡ (
                if m == source
                then 0
                else if m == target
                then cap (seconds_of table target h + seconds_of table source h)
                else seconds_of table m h))
  merge_counters table ne v =
      let whole = put_all-IsValid table (moved table) v (fits-moved table v.capped) in
      (
        after table,
        unfold after in move_to-kept table v,
        unfold after in kept-IsValid (put_all table (moved table)) whole.keyed whole.capped,
        λ m h. counted table m h ne v,
      )
