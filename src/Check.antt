-- ===== src/Check.antt =====
-- backend/app/features/check: the requests to go and look at a poste, of which a poste has one open
-- at most, and what a merge does with them.
pub mod Open
use natimai_tiai.Prelude.{
  ℕ, Bool, true, false, not, ◌&&◌, Option, none, some, String, List, [], ◌∷◌, map, head?, select,
  is_null, is_not_null, nat_eq, ◌==◌, if◌then◌else◌,
}
use natimai_tiai.Prelude.Time.{Instant}

pub record MachineCheck : Type 0 where
  pub id : ℕ
  pub machine_id : ℕ
  pub requested_by : String
  pub assigned_to_id : Option ℕ
  pub instructions : Option String
  pub created_at : Instant
  pub updated_at : Instant
  pub closed_at : Option Instant
  pub closed_by : Option String
  pub closing_note : Option String

abbrev pub is_open_of : ℕ → MachineCheck → Bool
is_open_of m c = c.machine_id == m && is_null c.closed_at

-- `open_for_machine`, where a poste has one at most
pub open_for_machine : List MachineCheck → ℕ → Option MachineCheck
open_for_machine checks m = head? (select (is_open_of m) checks)

-- The end of a request by a merge
pub superseded : Instant → MachineCheck → MachineCheck
superseded now c = record c {
  closed_at = some now;
  closed_by = some "system";
  closing_note = some "Fermée par la fusion du poste dans un autre.";
  updated_at = now;
}

-- The source's open request closed, if the target has one open
pub close_superseded : List MachineCheck → ℕ → ℕ → Instant → List MachineCheck
close_superseded checks source target now =
    if is_not_null (open_for_machine checks target)
    then map (λ (c : MachineCheck). if is_open_of source c then superseded now c else c) checks
    else checks

-- The UPDATE of a merge, on a row
abbrev pub reattached : ℕ → ℕ → MachineCheck → MachineCheck
reattached source target c = if c.machine_id == source then record c { machine_id = target } else c

-- `move_to`
pub move_to : List MachineCheck → ℕ → ℕ → Instant → List MachineCheck
move_to checks source target now =
    map (reattached source target) (close_superseded checks source target now)
