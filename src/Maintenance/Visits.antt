-- ===== src/Maintenance/Visits.antt =====
-- backend/app/features/maintenance/crud.py, `record_session`: one visit of a room or of some postes,
-- as a session row, an entry in each poste's journal and a step forward on each poste's cycle. The
-- identifiers that the database draws for the journal's entries and the time stamps of the new rows are
-- left out; the identifier of the visit is an argument.
pub mod Forward
use natimai_tiai.Prelude.{
  ℕ, Bool, true, Option, none, some, String, List, [], ◌∷◌, ltb, if◌then◌else◌, map,
}
use Prim.Native.String.{◌++◌ as text_append}
use natimai_tiai.Prelude.Time.{Instant}
use natimai_tiai.Machine.{Machine}
use natimai_tiai.Room.{Room}

-- backend/app/features/maintenance/models.py
pub record Maintenance : Type 0 where
  pub id : ℕ
  pub room_id : Option ℕ
  pub room_name : Option String
  pub performed_by : String
  pub performed_at : Instant
  pub note : Option String

-- backend/app/features/intervention/models.py
pub record Intervention : Type 0 where
  pub machine_id : ℕ
  pub kind : String
  pub title : Option String
  pub note : Option String
  pub performed_by : String
  pub performed_at : Instant
  pub maintenance_id : Option ℕ

pub record Session : Type 0 where
  pub visit : Maintenance
  pub interventions : List Intervention
  pub machines : List Machine

-- `performed_at > last_maintenance_at`, or no visit known
pub moves_forward : Option Instant → Instant → Bool
moves_forward none performed_at = true
moves_forward (some last) performed_at = ltb last performed_at

-- The forward-only write on one poste; `now` is `utcnow()`.
pub advance : Instant → Instant → Machine → Machine
unfolding moves_forward
advance performed_at now m =
    if moves_forward m.last_maintenance_at performed_at
    then record m { last_maintenance_at = some performed_at; updated_at = now }
    else m

pub title_of : Option Room → String
title_of none = "Maintenance"
title_of (some r) = text_append "Maintenance — " r.name

-- What a visit says of every poste.
pub record Visit : Type 0 where
  pub id : ℕ
  pub room : Option Room
  pub notes : ℕ → Option String
  pub performed_by : String
  pub performed_at : Instant
  pub note : Option String

pub entry : Visit → Machine → Intervention
unfolding title_of
entry v m = record {
  machine_id = m.id;
  kind = "maintenance";
  title = some (title_of v.room);
  note = v.notes m.id;
  performed_by = v.performed_by;
  performed_at = v.performed_at;
  maintenance_id = some v.id;
}

pub record_session : Visit → List Machine → Instant → Session
unfolding entry advance
record_session v machines now = record {
  visit = record {
    id = v.id;
    room_id = elim v.room [ none ↦ none | some r ↦ some r.id ];
    room_name = elim v.room [ none ↦ none | some r ↦ some r.name ];
    performed_by = v.performed_by;
    performed_at = v.performed_at;
    note = v.note;
  };
  interventions = map (entry v) machines;
  machines = map (advance v.performed_at now) machines;
}
