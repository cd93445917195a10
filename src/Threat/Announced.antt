-- ===== src/Threat/Announced.antt =====
-- The detections that are news, over the polls of the postes.
use natimai_tiai.Prelude.{
  ℕ, ◌+◌, ◌≡◌, refl, arith, Bool, true, not, ◌&&◌, ◌||◌, Option, none, some, String, List, [], ◌∷◌,
  map, select, any, count_where, eq_value, option_eq, string_eq, nat_eq, ◌==◌, ==_same, ==_sound,
  if◌then◌else◌, Bool-cases, inl, inr, ap, ◌∙◌,
}
use natimai_tiai.Command.Result.{truthy}
use natimai_tiai.Threat.{
  ThreatReport, Threat, NewDetection, put_report, keep_report, deduped, Written, upsert_rows,
  announced_row, upsert_threats,
}
use natimai_tiai.Threat.Rows.{knows, names, news, knows-upsert_rows, news-upsert_rows}

names-put_report :
    (d : String) (r : ThreatReport) (rows : List (String × ThreatReport)) (d' : String)
    → names d' (put_report d r rows) ≡ (names d' rows || d == d')
unfolding put_report
names-put_report d r [] d' = ground arith
names-put_report d r (row ∷ rows) d' = elim (Bool-cases (row.0 == d)) [
  | inl same ↦ ground (arith, same, ==_same row.0 d d' same)
  | inr other ↦ ground (arith, other, names-put_report d r rows d')
]

-- A report that names a detection
abbrev pub reports_it : String → ThreatReport → Bool
reports_it d r = eq_value r.detection_id d

names-keep_report :
    (o : Option String) (r : ThreatReport) (rows : List (String × ThreatReport)) (d : String)
    → truthy (some d) ≡ true
    → names d (keep_report o r rows) ≡ (names d rows || eq_value o d)
names-keep_report none r rows d h = ground arith
names-keep_report (some a) r rows d h = elim (Bool-cases (truthy (some a))) [
  | inl kept ↦ rw kept (names-put_report a r rows d)
  | inr skipped ↦ elim (Bool-cases (a == d)) [
    | inl same ↦ ground (arith, h, skipped, ap (λ x. truthy (some x)) (==_sound a d same))
    | inr other ↦ rw skipped (ground (arith, other))
  ]
]

names-deduped :
    (reports : List ThreatReport) (rows : List (String × ThreatReport)) (d : String)
    → truthy (some d) ≡ true
    → names d (deduped reports rows) ≡ (names d rows || any (reports_it d) reports)
unfolding deduped
names-deduped [] rows d h = ground arith
names-deduped (r ∷ reports) rows d h = ground (
  arith,
  names-deduped reports (keep_report r.detection_id r rows) d h,
  names-keep_report r.detection_id r rows d h,
)

counted_announced :
    (d : String) (written : List Written)
    → count_where
        (λ (n : NewDetection). n.detection_id == d)
        (map announced_row (select (λ (w : Written). w.inserted) written))
      ≡ news d written
counted_announced d [] = refl
counted_announced d (w ∷ written) = ground (arith, counted_announced d written)

-- One poll: the poste, the first number drawn, and what it reports
pub record Poll : Type 0 where
  pub machine_id : ℕ
  pub fresh : ℕ
  pub reports : List ThreatReport

abbrev pub table_after : Poll → List Threat → List Threat
table_after p table = (upsert_threats p.machine_id p.fresh p.reports table).0

abbrev pub new_after : Poll → List Threat → List NewDetection
new_after p table = (upsert_threats p.machine_id p.fresh p.reports table).1.new_detections

-- How often the polls of a poste announce a detection
abbrev pub announced : ℕ → String → List Poll → List Threat → ℕ
announced m d [] table = 0
announced m d (p ∷ polls) table =
    (if p.machine_id == m
      then count_where (λ (n : NewDetection). n.detection_id == d) (new_after p table)
      else 0)
    + announced m d polls (table_after p table)

abbrev pub ever_reported : ℕ → String → List Poll → Bool
ever_reported m d polls =
    any (λ (p : Poll). p.machine_id == m && any (reports_it d) p.reports) polls

knows-after :
    (p : Poll) (table : List Threat) (m : ℕ) (d : String)
    → truthy (some d) ≡ true
    → knows m d (table_after p table)
      ≡ (knows m d table || (p.machine_id == m && any (reports_it d) p.reports))
unfolding upsert_threats
knows-after p table m d h =
    knows-upsert_rows p.machine_id p.fresh (deduped p.reports []) table m d
    ∙ ap (λ x. knows m d table || (p.machine_id == m && x)) (names-deduped p.reports [] d h)

new-after :
    (p : Poll) (table : List Threat) (d : String)
    → truthy (some d) ≡ true
    → count_where (λ (n : NewDetection). n.detection_id == d) (new_after p table)
      ≡ (if not (knows p.machine_id d table) && any (reports_it d) p.reports then 1 else 0)
unfolding upsert_threats
new-after p table d h =
    counted_announced d (upsert_rows p.machine_id p.fresh (deduped p.reports []) table).1
    ∙ news-upsert_rows p.machine_id p.fresh (deduped p.reports []) table d
    ∙ ap (λ x. if not (knows p.machine_id d table) && x then 1 else 0)
        (names-deduped p.reports [] d h)

-- Over any polls of any postes, a detection with an identifier that a poste reports is announced as
-- new exactly once, however often it is reported, in one batch or in many, and whatever its
-- readings; one that the table knew before is not announced.
pub announced-once :
    (polls : List Poll) (table : List Threat) (m : ℕ) (d : String)
    → truthy (some d) ≡ true
    → announced m d polls table
      ≡ (if not (knows m d table) && ever_reported m d polls then 1 else 0)
announced-once [] table m d h = ground arith
announced-once (p ∷ polls) table m d h = elim (Bool-cases (p.machine_id == m)) [
  | inl own ↦ ground (
    arith,
    own,
    new-after p table d h,
    knows-after p table m d h,
    ap (λ x. knows x d table) (==_sound p.machine_id m own),
    announced-once polls (table_after p table) m d h,
  )
  | inr other ↦
      ground
        (arith, other, knows-after p table m d h, announced-once polls (table_after p table) m d h)
]
