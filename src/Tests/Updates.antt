-- ===== src/Tests/Updates.antt =====
-- A poste that reports its pending updates a second time.
use natimai_tiai.Prelude.{◌≡◌, refl, false, none, some, String, List, [], ◌∷◌, nat_eq, coalesce_to}
use natimai_tiai.WindowsUpdate.{PendingUpdateReport, WindowsUpdate, new_update, replace_pending}
use natimai_tiai.WindowsUpdate.Pending.{seen, replace_pending-exactly}

abbrev report : String → PendingUpdateReport
report u = record {
  update_id = u;
  kb = none;
  title = "";
  severity = none;
  type = "software";
  categories_text = none;
  is_downloaded = false;
  size = none;
}

-- Poste 1 reported a and b at 5, poste 2 reported a at 6.
abbrev table : List WindowsUpdate
table =
    new_update 1 10 5 (report "a")
    ∷ new_update 1 11 5 (report "b")
    ∷ new_update 2 12 6 (report "a")
    ∷ []

abbrev reports : List PendingUpdateReport
reports = report "b" ∷ report "" ∷ report "c" ∷ report "b" ∷ []

since : seen 1 "b" table ≡ some 5
unfolding seen
since = refl

replace_pending-exactly_example :
    seen 1 "b" (replace_pending 1 13 9 reports table).0 ≡ some (coalesce_to (seen 1 "b" table) 9)
replace_pending-exactly_example = replace_pending-exactly 1 13 9 reports table 1 "b"
