-- ===== src/WindowsUpdate.antt =====
-- backend/app/features/windows_update: the updates that are pending on a poste, as its last report
-- has them, with the block of `heartbeat` in backend/app/api/routes/agent.py that keeps them. The
-- reports are those that the schema passes on; a size is a number of bytes.
pub mod Pending
use natimai_tiai.Prelude.{
  ℕ, suc, Bool, true, false, not, ◌&&◌, Option, none, some, String, List, [], ◌∷◌, length, any,
  select, nat_eq, string_eq, ◌==◌, if◌then◌else◌,
}
use natimai_tiai.Prelude.Time.{Instant}
use natimai_tiai.Machine.{Machine}

pub record PendingUpdateReport : Type 0 where
  pub update_id : String
  pub kb : Option String
  pub title : String
  pub severity : Option String
  pub type : String
  pub categories_text : Option String
  pub is_downloaded : Bool
  pub size : Option ℕ

pub record WindowsUpdate : Type 0 where
  pub id : ℕ
  pub machine_id : ℕ
  pub update_id : String
  pub kb : Option String
  pub title : String
  pub severity : Option String
  pub type : String
  pub categories : Option String
  pub is_downloaded : Bool
  pub size : Option ℕ
  pub first_seen : Instant
  pub last_seen : Instant

-- `unique[row["update_id"]] = row`: a key keeps its place, and the last value wins.
pub put_report : PendingUpdateReport → List PendingUpdateReport → List PendingUpdateReport
put_report r [] = r ∷ []
put_report r (row ∷ rows) =
    let rest = put_report r rows in if row.update_id == r.update_id then r ∷ rows else row ∷ rest

-- The rows that are sent: a report without an identifier is skipped.
pub unique : List PendingUpdateReport → List PendingUpdateReport → List PendingUpdateReport
unfolding put_report
unique [] rows = rows
unique (r ∷ reports) rows = unique reports (if r.update_id == "" then rows else put_report r rows)

-- The key of the unique constraint
abbrev pub is_update : ℕ → String → WindowsUpdate → Bool
is_update m u t = t.machine_id == m && t.update_id == u

abbrev pub new_update : ℕ → ℕ → Instant → PendingUpdateReport → WindowsUpdate
new_update m id now r = record {
  id = id;
  machine_id = m;
  update_id = r.update_id;
  kb = r.kb;
  title = r.title;
  severity = r.severity;
  type = r.type;
  categories = r.categories_text;
  is_downloaded = r.is_downloaded;
  size = r.size;
  first_seen = now;
  last_seen = now;
}

-- The SET of ON CONFLICT DO UPDATE
abbrev pub revised : Instant → PendingUpdateReport → WindowsUpdate → WindowsUpdate
revised now r t = record t {
  kb = r.kb;
  title = r.title;
  severity = r.severity;
  type = r.type;
  categories = r.categories_text;
  is_downloaded = r.is_downloaded;
  size = r.size;
  last_seen = now;
}

-- The statement, on one of its rows; the number of an inserted row is drawn.
pub upsert_row : ℕ → ℕ → Instant → PendingUpdateReport → List WindowsUpdate → List WindowsUpdate
upsert_row m id now r [] = new_update m id now r ∷ []
upsert_row m id now r (t ∷ table) =
    let rest = upsert_row m id now r table in
    if is_update m r.update_id t then revised now r t ∷ table else t ∷ rest

pub upsert_rows :
    ℕ → ℕ → Instant → List PendingUpdateReport → List WindowsUpdate → List WindowsUpdate
upsert_rows m fresh now [] table = table
upsert_rows m fresh now (r ∷ rows) table =
    upsert_rows m (suc fresh) now rows (upsert_row m fresh now r table)

abbrev pub names : String → List PendingUpdateReport → Bool
names u rows = any (λ (r : PendingUpdateReport). r.update_id == u) rows

-- The DELETE of what the poste no longer reports
pub without_stale : ℕ → List PendingUpdateReport → List WindowsUpdate → List WindowsUpdate
without_stale m rows table =
    select (λ (t : WindowsUpdate). not (t.machine_id == m && not (names t.update_id rows))) table

-- `replace_pending`: the table, and how many updates are pending on the poste
pub replace_pending :
    ℕ → ℕ → Instant → List PendingUpdateReport → List WindowsUpdate → List WindowsUpdate × ℕ
replace_pending m fresh now reports table = (
  without_stale m (unique reports []) (upsert_rows m fresh now (unique reports []) table),
  length (unique reports []),
)

pub record WuStateReport : Type 0 where
  pub reboot_required : Bool
  pub last_search_time : Option Instant
  pub last_install_time : Option Instant
  pub pending : List PendingUpdateReport

-- The block of `heartbeat` on the updates: the poste's row, and the table
unfoldable pub with_windows_update :
    ℕ → Instant → Option WuStateReport → Machine → List WindowsUpdate → Machine × List WindowsUpdate
unfolding replace_pending
with_windows_update fresh now none m table = (m, table)
with_windows_update fresh now (some wu) m table = (
  record m {
    wu_reboot_required = wu.reboot_required;
    wu_last_search = wu.last_search_time;
    wu_last_install = wu.last_install_time;
    wu_pending_count = some (replace_pending m.id fresh now wu.pending table).1;
  },
  (replace_pending m.id fresh now wu.pending table).0,
)
