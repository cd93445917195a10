-- ===== src/Threat.antt =====
-- backend/app/features/threat: the detections that a poste reports, and the upsert that keeps each
-- once with its latest reading. The fields of a report that the schema does not know are left out
-- of it, and so of the copy that a row keeps (`raw`).
pub mod Rows
pub mod Announced
use natimai_tiai.Prelude.{
  ℕ, suc, Bool, true, false, not, ◌&&◌, ◌||◌, Option, none, some, String, List, [], ◌∷◌, ◌++◌,
  length, map, select, coalesce, eq_value, option_eq, string_eq, nat_eq, ◌==◌, if◌then◌else◌,
}
use natimai_tiai.Prelude.Time.{Instant}
use natimai_tiai.Command.Result.{truthy}

pub record ThreatReport : Type 0 where
  pub detection_id : Option String
  pub threat_name : Option String
  pub severity : Option String
  pub category : Option String
  pub status : Option String
  pub action_taken : Option String
  pub detected_at : Option Instant

pub record Threat : Type 0 where
  pub id : ℕ
  pub machine_id : ℕ
  pub detection_id : Option String
  pub threat_name : Option String
  pub severity : Option String
  pub category : Option String
  pub status : Option String
  pub action_taken : Option String
  pub detected_at : Option Instant
  pub raw : ThreatReport

pub record NewDetection : Type 0 where
  pub detection_id : String
  pub threat_name : Option String
  pub severity : Option String
  pub status : Option String
  pub detected_at : Option Instant

pub record UpsertResult : Type 0 where
  pub written : ℕ
  pub new_detections : List NewDetection

-- `deduped[r.detection_id] = ...`: a key keeps its place, and the last value wins.
pub put_report : String → ThreatReport → List (String × ThreatReport) → List (String × ThreatReport)
put_report d r [] = (d, r) ∷ []
put_report d r (row ∷ rows) =
    let rest = put_report d r rows in if row.0 == d then (d, r) ∷ rows else row ∷ rest

-- One round of that loop: a report without an identifier is skipped.
abbrev pub keep_report :
    Option String → ThreatReport → List (String × ThreatReport) → List (String × ThreatReport)
keep_report none r rows = rows
keep_report (some d) r rows = if truthy (some d) then put_report d r rows else rows

pub deduped : List ThreatReport → List (String × ThreatReport) → List (String × ThreatReport)
deduped [] rows = rows
deduped (r ∷ reports) rows = deduped reports (keep_report r.detection_id r rows)

-- The key of the unique constraint
abbrev pub has_detection : ℕ → String → Threat → Bool
has_detection m d t = t.machine_id == m && eq_value t.detection_id d

-- The row of a new detection
new_threat : ℕ → ℕ → String → ThreatReport → Threat
new_threat m id d r = record {
  id = id;
  machine_id = m;
  detection_id = some d;
  threat_name = r.threat_name;
  severity = r.severity;
  category = r.category;
  status = r.status;
  action_taken = r.action_taken;
  detected_at = r.detected_at;
  raw = r;
}

-- The SET and the WHERE of ON CONFLICT DO UPDATE
pub revised : ThreatReport → Threat → Threat
revised r t = record t {
  threat_name = r.threat_name;
  severity = r.severity;
  category = r.category;
  status = r.status;
  action_taken = r.action_taken;
  detected_at = coalesce r.detected_at t.detected_at;
  raw = r;
}

pub is_revision : ThreatReport → Threat → Bool
is_revision r t =
    not (t.threat_name == r.threat_name)
    || (not (t.severity == r.severity)
        || (not (t.category == r.category)
            || (not (t.status == r.status)
                || (not (t.action_taken == r.action_taken)
                    || not (t.detected_at == coalesce r.detected_at t.detected_at)))))

-- What the statement returns of a row: its key, the row, and whether it was inserted
pub record Written : Type 0 where
  pub key : String
  pub row : Threat
  pub inserted : Bool

-- The statement, on one of its rows; the number of an inserted row is drawn.
pub upsert_row : ℕ → ℕ → String → ThreatReport → List Threat → List Threat × List Written
unfolding new_threat
upsert_row m id d r [] =
    (new_threat m id d r ∷ [], record { key = d; row = new_threat m id d r; inserted = true } ∷ [])
upsert_row m id d r (t ∷ table) =
    let (rest, out) = upsert_row m id d r table in
    if has_detection m d t
    then (if is_revision r t
        then (revised r t ∷ table, record { key = d; row = revised r t; inserted = false } ∷ [])
        else (t ∷ table, []))
    else (t ∷ rest, out)

pub upsert_rows : ℕ → ℕ → List (String × ThreatReport) → List Threat → List Threat × List Written
upsert_rows m fresh [] table = (table, [])
upsert_rows m fresh (row ∷ rows) table =
    let (table', out) = upsert_row m fresh row.0 row.1 table in
    let (end, outs) = upsert_rows m (suc fresh) rows table' in (end, out ++ outs)

abbrev pub announced_row : Written → NewDetection
announced_row w = record {
  detection_id = w.key;
  threat_name = w.row.threat_name;
  severity = w.row.severity;
  status = w.row.status;
  detected_at = w.row.detected_at;
}

-- `upsert_threats`; a statement without rows, which is not sent, writes nothing either.
pub upsert_threats : ℕ → ℕ → List ThreatReport → List Threat → List Threat × UpsertResult
upsert_threats m fresh reports table =
    let (table', written) = upsert_rows m fresh (deduped reports []) table in
    (
      table',
      record {
        written = length written;
        new_detections = map announced_row (select (λ (w : Written). w.inserted) written);
      },
    )
