-- ===== src/Room.antt =====
-- backend/app/features/room/models.py: the buildings and the rooms that hold the postes. Their
-- notes and time stamps are read by no modelled operation and are left out.
pub mod Sites
pub mod Numbered
pub mod Outcome
pub mod Directory
use natimai_tiai.Prelude.{ℕ, Option, none, some, String, List, [], ◌∷◌, ◌==◌, nat_eq, if◌then◌else◌}

pub record Building : Type 0 where
  pub id : ℕ
  pub name : String
  pub location : Option String

pub record Room : Type 0 where
  pub id : ℕ
  pub name : String
  pub building_id : Option ℕ
  pub ad_key : Option String
  pub location : Option String
  pub maintenance_cycle_days : Option ℕ
  pub maintenance_owner_id : Option ℕ

-- LEFT JOIN of a primary key: the row with this identifier, or NULL.
abbrev pub building_by_id : List Building → ℕ → Option Building
building_by_id [] i = none
building_by_id (b ∷ bs) i = if b.id == i then some b else building_by_id bs i

abbrev pub room_by_id : List Room → ℕ → Option Room
room_by_id [] i = none
room_by_id (r ∷ rs) i = if r.id == i then some r else room_by_id rs i
