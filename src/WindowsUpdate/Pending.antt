-- ===== src/WindowsUpdate/Pending.antt =====
-- What is pending on a poste after it reported, and since when.
use natimai_tiai.Prelude.{
  ℕ, suc, ◌≡◌, refl, sym, ◌∙◌, ap, ap₂, arith, Bool, true, false, not, ◌&&◌, ◌||◌, Option, none,
  some, String, List, [], ◌∷◌, any, nat_eq, string_eq, ◌==◌, ==_sound, ==_same, ==_swap,
  if◌then◌else◌, coalesce_to, Bool-cases, inl, inr, and_true,
}
use natimai_tiai.Prelude.Time.{Instant}
use natimai_tiai.WindowsUpdate.{
  PendingUpdateReport, WindowsUpdate, put_report, unique, is_update, upsert_row, upsert_rows, names,
  without_stale, replace_pending,
}

-- Since when an update is pending on a poste, if it is
unfoldable pub seen : ℕ → String → List WindowsUpdate → Option Instant
seen m u [] = none
seen m u (t ∷ table) = if is_update m u t then some t.first_seen else seen m u table

-- A report names an update by its identifier, if it has one.
abbrev pub reported : String → List PendingUpdateReport → Bool
reported u reports =
    any (λ (r : PendingUpdateReport). not (r.update_id == "") && r.update_id == u) reports

same_key :
    (m m' : ℕ) (u u' : String) (t : WindowsUpdate)
    → is_update m u t ≡ true
    → is_update m' u' t ≡ (m == m' && u == u')
same_key m m' u u' t h =
    let both = and_true (t.machine_id == m) (t.update_id == u) h in
    ground (arith, ==_same t.machine_id m m' both.0, ==_same t.update_id u u' both.1)

apart :
    (m m' : ℕ) (u u' : String) (t : WindowsUpdate)
    → is_update m u t ≡ false
    → is_update m' u' t ≡ true
    → (m == m' && u == u') ≡ false
apart m m' u u' t other found = elim (Bool-cases (m == m' && u == u')) [
  | inl both ↦
      let parts = and_true (m == m') (u == u') both in
      absurd (
        false-true (
          sym other
          ∙ ap (λ k. is_update k u t) (==_sound m m' parts.0)
          ∙ ap (λ v. is_update m' v t) (==_sound u u' parts.1)
          ∙ found))
  | inr ne ↦ ne
]
  where
    false-true : false ≡ true → ⊥
    false-true h = cc

seen-upsert_row :
    (m id : ℕ) (now : Instant) (r : PendingUpdateReport) (table : List WindowsUpdate) (m' : ℕ)
    (u' : String)
    → seen m' u' (upsert_row m id now r table) ≡ (
        if m == m' && r.update_id == u'
        then some (coalesce_to (seen m' u' table) now)
        else seen m' u' table)
unfolding seen upsert_row
seen-upsert_row m id now r [] m' u' = refl
seen-upsert_row m id now r (t ∷ table) m' u' = elim (Bool-cases (is_update m r.update_id t)) [
  | inl here ↦ elim (Bool-cases (m == m' && r.update_id == u')) [
    | inl both ↦ rw (here, both, same_key m m' r.update_id u' t here ∙ both) refl
    | inr else_ ↦ rw (here, else_, same_key m m' r.update_id u' t here ∙ else_) refl
  ]
  | inr other ↦ elim (Bool-cases (is_update m' u' t)) [
    | inl found ↦ rw (other, found, apart m m' r.update_id u' t other found) refl
    | inr later ↦ rw (other, later) (seen-upsert_row m id now r table m' u')
  ]
]

seen-upsert_rows :
    (m fresh : ℕ) (now : Instant) (rows : List PendingUpdateReport) (table : List WindowsUpdate)
    (m' : ℕ) (u' : String)
    → seen m' u' (upsert_rows m fresh now rows table) ≡ (
        if m == m' && names u' rows
        then some (coalesce_to (seen m' u' table) now)
        else seen m' u' table)
unfolding upsert_rows
seen-upsert_rows m fresh now [] table m' u' = ground arith
seen-upsert_rows m fresh now (r ∷ rows) table m' u' =
    seen-upsert_rows m (suc fresh) now rows (upsert_row m fresh now r table) m' u'
    ∙ ap (λ o. if m == m' && names u' rows then some (coalesce_to o now) else o)
        (seen-upsert_row m fresh now r table m' u')
    ∙ settle (m == m') (r.update_id == u') (names u' rows) (seen m' u' table)
  where
    settle :
        (b x y : Bool) (o : Option Instant)
        → (if b && y
            then some (coalesce_to (if b && x then some (coalesce_to o now) else o) now)
            else if b && x
            then some (coalesce_to o now)
            else o)
          ≡ (if b && (x || y) then some (coalesce_to o now) else o)
    settle false x y o = refl
    settle true true true o = refl
    settle true true false o = refl
    settle true false y o = refl

seen-without_stale :
    (m : ℕ) (rows : List PendingUpdateReport) (table : List WindowsUpdate) (m' : ℕ) (u' : String)
    → seen m' u' (without_stale m rows table)
      ≡ (if m == m' && not (names u' rows) then none else seen m' u' table)
unfolding seen without_stale
seen-without_stale m rows [] m' u' = ground arith
seen-without_stale m rows (t ∷ table) m' u' =
    elim (Bool-cases (t.machine_id == m && not (names t.update_id rows))) [
      | inl gone ↦ elim (Bool-cases (is_update m' u' t)) [
        | inl found ↦
            rw (gone, found, sym (stale_of found) ∙ gone)
              (seen-without_stale m rows table m' u' ∙ rw (sym (stale_of found) ∙ gone) refl)
        | inr later ↦ rw (gone, later) (seen-without_stale m rows table m' u')
      ]
      | inr kept ↦ elim (Bool-cases (is_update m' u' t)) [
        | inl found ↦ rw (kept, found, sym (stale_of found) ∙ kept) refl
        | inr later ↦ rw (kept, later) (seen-without_stale m rows table m' u')
      ]
    ]
  where
    stale_of :
        is_update m' u' t ≡ true
        → (t.machine_id == m && not (names t.update_id rows)) ≡ (m == m' && not (names u' rows))
    stale_of found =
        let parts = and_true (t.machine_id == m') (t.update_id == u') found in
        ap₂ (λ k v. k && not v) (ap (λ k. k == m) (==_sound t.machine_id m' parts.0) ∙ ==_swap m' m)
          (ap (λ v. names v rows) (==_sound t.update_id u' parts.1))

names-put_report :
    (r : PendingUpdateReport) (rows : List PendingUpdateReport) (u : String)
    → names u (put_report r rows) ≡ (names u rows || r.update_id == u)
unfolding put_report
names-put_report r [] u = ground arith
names-put_report r (row ∷ rows) u = elim (Bool-cases (row.update_id == r.update_id)) [
  | inl here ↦ ground (arith, here, ==_same row.update_id r.update_id u here)
  | inr other ↦ ground (arith, other, names-put_report r rows u)
]

names-unique :
    (reports rows : List PendingUpdateReport) (u : String)
    → names u (unique reports rows) ≡ (names u rows || reported u reports)
unfolding unique
names-unique [] rows u = ground arith
names-unique (r ∷ reports) rows u = elim (Bool-cases (r.update_id == "")) [
  | inl empty ↦ ground (arith, empty, names-unique reports rows u)
  | inr named ↦
      ground (arith, named, names-unique reports (put_report r rows) u, names-put_report r rows u)
]

-- After a poste reported, exactly what it reported is pending on it, each update since it was first
-- reported and has been pending since; what is pending on the other postes is as it was.
pub replace_pending-exactly :
    (m fresh : ℕ) (now : Instant) (reports : List PendingUpdateReport) (table : List WindowsUpdate)
    (m' : ℕ) (u : String)
    → seen m' u (replace_pending m fresh now reports table).0 ≡ (
        if m == m'
        then if reported u reports then some (coalesce_to (seen m' u table) now) else none
        else seen m' u table)
unfolding replace_pending
replace_pending-exactly m fresh now reports table m' u =
    let rows = unique reports [] in
    seen-without_stale m rows (upsert_rows m fresh now rows table) m' u
    ∙ ap (λ o. if m == m' && not (names u rows) then none else o)
        (seen-upsert_rows m fresh now rows table m' u)
    ∙ settle (m == m') (names u rows) (reported u reports) (seen m' u table)
        (names-unique reports [] u)
  where
    settle :
        (b x y : Bool) (o : Option Instant)
        → x ≡ (false || y)
        → (if b && not x then none else if b && x then some (coalesce_to o now) else o)
          ≡ (if b then if y then some (coalesce_to o now) else none else o)
    settle false x y o e = refl
    settle true true true o e = refl
    settle true false false o e = refl
    settle true true false o e = cc
    settle true false true o e = cc
