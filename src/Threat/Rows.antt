-- ===== src/Threat/Rows.antt =====
-- The table of the detections after an upsert, read key by key, and what the upsert returns.
use natimai_tiai.Prelude.{
  ℕ, suc, ◌≡◌, refl, arith, Bool, true, not, ◌&&◌, ◌||◌, Option, none, some, String, List, [], ◌∷◌,
  any, count_where, count_where-append, eq_value, option_eq, string_eq, nat_eq, ◌==◌, ==_same,
  ==_sound, ==_refl, if◌then◌else◌, and_true, ap₂, Bool-cases, inl, inr, ap, ◌∙◌,
}
use natimai_tiai.Threat.{
  ThreatReport, Threat, has_detection, new_threat, revised, is_revision, Written, upsert_row,
  upsert_rows,
}

-- A table knows a detection of a poste; a batch names one.
abbrev pub knows : ℕ → String → List Threat → Bool
knows m d table = any (has_detection m d) table

abbrev pub names : String → List (String × ThreatReport) → Bool
names d rows = any (λ (row : String × ThreatReport). row.0 == d) rows

-- The news of a detection in a batch's answer
abbrev pub news : String → List Written → ℕ
news d written = count_where (λ (w : Written). w.inserted && w.key == d) written

revised-key :
    (m : ℕ) (d : String) (r : ThreatReport) (t : Threat)
    → has_detection m d (revised r t) ≡ has_detection m d t
unfolding revised
revised-key m d r t = refl

same_text : (o : Option String) (d d' : String) → eq_value o d ≡ true → eq_value o d' ≡ (d == d')
same_text none d d' h = ground arith
same_text (some a) d d' h = ==_same a d d' h

same_key :
    (m m' : ℕ) (d d' : String) (t : Threat)
    → has_detection m d t ≡ true
    → has_detection m' d' t ≡ (m == m' && d == d')
same_key m m' d d' t h =
    let both = and_true (t.machine_id == m) (eq_value t.detection_id d) h in
    ap₂ (λ a b. a && b) (==_same t.machine_id m m' both.0) (same_text t.detection_id d d' both.1)

twice : (x y z k : Bool) → z ≡ x → x ≡ y → (z || k) ≡ ((x || k) || y)
twice x y z k e f = ground (arith, e, f)

later : (x a k y : Bool) → a ≡ (k || y) → (x || a) ≡ ((x || k) || y)
later x a k y e = ground (arith, e)

knows-upsert_row :
    (m id : ℕ) (d : String) (r : ThreatReport) (table : List Threat) (m' : ℕ) (d' : String)
    → knows m' d' (upsert_row m id d r table).0 ≡ (knows m' d' table || (m == m' && d == d'))
unfolding upsert_row new_threat
knows-upsert_row m id d r [] m' d' = ground arith
knows-upsert_row m id d r (t ∷ table) m' d' = elim (Bool-cases (has_detection m d t)) [
  | inl here ↦ elim (Bool-cases (is_revision r t)) [
    | inl moved ↦
        rw (here, moved)
          (twice _ (m == m' && d == d') (has_detection m' d' (revised r t)) (knows m' d' table)
            (revised-key m' d' r t) (same_key m m' d d' t here))
    | inr kept ↦
        rw (here, kept)
          (twice _ (m == m' && d == d') (has_detection m' d' t) (knows m' d' table) refl
            (same_key m m' d d' t here))
  ]
  | inr other ↦ rw other (
      later (has_detection m' d' t) _ (knows m' d' table) (m == m' && d == d')
        (knows-upsert_row m id d r table m' d'))
]

news-upsert_row :
    (m id : ℕ) (d : String) (r : ThreatReport) (table : List Threat) (d' : String)
    → news d' (upsert_row m id d r table).1 ≡ (if not (knows m d table) && d == d' then 1 else 0)
unfolding upsert_row
news-upsert_row m id d r [] d' = ground arith
news-upsert_row m id d r (t ∷ table) d' = elim (Bool-cases (has_detection m d t)) [
  | inl here ↦ elim (Bool-cases (is_revision r t)) [
    | inl moved ↦ rw (here, moved) refl
    | inr kept ↦ rw (here, kept) refl
  ]
  | inr other ↦ rw other (news-upsert_row m id d r table d')
]

pub knows-upsert_rows :
    (m fresh : ℕ) (rows : List (String × ThreatReport)) (table : List Threat) (m' : ℕ) (d' : String)
    → knows m' d' (upsert_rows m fresh rows table).0
      ≡ (knows m' d' table || (m == m' && names d' rows))
unfolding upsert_rows
knows-upsert_rows m fresh [] table m' d' = ground arith
knows-upsert_rows m fresh (row ∷ rows) table m' d' =
    let table' = (upsert_row m fresh row.0 row.1 table).0 in
    knows-upsert_rows m (suc fresh) rows table' m' d'
    ∙ gather (knows m' d' table) (m == m') (row.0 == d') (names d' rows)
        (knows-upsert_row m fresh row.0 row.1 table m' d')
  where
    gather :
        (k b x y : Bool) {a : Bool} → a ≡ (k || (b && x)) → (a || (b && y)) ≡ (k || (b && (x || y)))
    gather k b x y e = ground (arith, e)

-- A batch's answer has one news of each detection that it names and that was not known.
pub news-upsert_rows :
    (m fresh : ℕ) (rows : List (String × ThreatReport)) (table : List Threat) (d' : String)
    → news d' (upsert_rows m fresh rows table).1
      ≡ (if not (knows m d' table) && names d' rows then 1 else 0)
unfolding upsert_rows
news-upsert_rows m fresh [] table d' = ground arith
news-upsert_rows m fresh (row ∷ rows) table d' =
    let table' = (upsert_row m fresh row.0 row.1 table).0 in
    let out = (upsert_row m fresh row.0 row.1 table).1 in
    count_where-append (λ (w : Written). w.inserted && w.key == d') out
      (upsert_rows m (suc fresh) rows table').1
    ∙ elim (Bool-cases (row.0 == d')) [
      | inl here ↦ ground (
        arith,
        here,
        news-upsert_row m fresh row.0 row.1 table d',
        news-upsert_rows m (suc fresh) rows table' d',
        knows-upsert_row m fresh row.0 row.1 table m d',
        ap (λ x. knows m x table) (==_sound row.0 d' here),
        ==_refl m,
      )
      | inr other ↦ ground (
        arith,
        other,
        news-upsert_row m fresh row.0 row.1 table d',
        news-upsert_rows m (suc fresh) rows table' d',
        knows-upsert_row m fresh row.0 row.1 table m d',
      )
    ]
