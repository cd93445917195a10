-- ===== src/Machine/Merge/Keeps.antt =====
-- What a merge keeps: the constraints of the tables, and the history of both postes.
use natimai_tiai.Prelude.{
  ℕ, ◌+◌, ◌≤◌, ◌≡◌, ◌≢◌, refl, arith, true, false, not, ◌||◌, Option, none, some, String, List, [],
  ◌∷◌, map, any, select, eq_value, nat_eq, string_eq, ◌==◌, ==_sound, if◌then◌else◌, count_where,
  Bool-cases, inl, inr, ap,
}
use natimai_tiai.Prelude.Time.{Instant}
use natimai_tiai.Machine.{Machine}
use natimai_tiai.Threat.{Threat, has_detection}
use natimai_tiai.Threat.Rows.{knows}
use natimai_tiai.Check.Open.{open_of, open-move_to, checks-moved}
use natimai_tiai.Usage.Counters.{Uptime, cap}
use natimai_tiai.Usage.Counters.Rows.{IsValid, seconds_of}
use natimai_tiai.Usage.Counters.Merge.{merge_counters}
use natimai_tiai.Machine.Merge.Moved.{
  HasMoved, IsGone, commands-moved, commands_said, interventions-moved, interventions_said,
  threats-left, none_relayed, row_gone, postes_kept,
}
use natimai_tiai.Machine.Merge.{
  Fleet, is_held, collides, moved_threat, merge_threats, merged, merge_into,
}

-- How many rows bear a detection of a poste: one at most, by the unique constraint
abbrev pub copies : ℕ → String → List Threat → ℕ
copies m d threats = count_where (has_detection m d) threats

held_at :
    (target : ℕ) (threats : List Threat) (o : Option String) (d : String)
    → eq_value o d ≡ true
    → is_held target threats o ≡ any (has_detection target d) threats
held_at target threats none d h = ground arith
held_at target threats (some a) d h =
    ap (λ x. any (has_detection target x) threats) (==_sound a d h)

-- The same, over the rows that the table keeps and moves
moved_copies :
    (source target : ℕ) (whole threats : List Threat) (m : ℕ) (d : String)
    → (source == target) ≡ false
    → copies m d (
        map
          (moved_threat source target)
          (select (λ t. not (collides source target whole t)) threats))
      ≡ (if m == target
          then copies target d threats
            + (if any (has_detection target d) whole then 0 else copies source d threats)
          else if m == source
          then 0
          else copies m d threats)
moved_copies source target whole [] m d ne = ground arith
moved_copies source target whole (t ∷ threats) m d ne =
    elim (Bool-cases (eq_value t.detection_id d)) [
      | inl same ↦ ground (
        arith,
        ne,
        same,
        held_at target whole t.detection_id d same,
        moved_copies source target whole threats m d ne,
      )
      | inr other ↦ ground (arith, ne, other, moved_copies source target whole threats m d ne)
    ]

none_copied :
    (m : ℕ) (d : String) (threats : List Threat)
    → any (has_detection m d) threats ≡ not (copies m d threats == 0)
none_copied m d [] = refl
none_copied m d (t ∷ threats) = ground (arith, none_copied m d threats)

-- What the constraints of the tables and the writes of the counters keep
pub record IsSound (fleet : Fleet) : Type 0 where
  pub detections_once : (m : ℕ) (d : String) → copies m d fleet.threats ≤ 1
  pub checks_once : (m : ℕ) → open_of m fleet.checks ≤ 1
  pub counters : IsValid fleet.uptimes

merged_once :
    (threats : List Threat) (source target m : ℕ) (d : String)
    → (source == target) ≡ false
    → ((n : ℕ) → copies n d threats ≤ 1)
    → copies m d (merge_threats threats source target) ≤ 1
unfolding merge_threats
merged_once threats source target m d ne once = ground (
  arith,
  moved_copies source target threats threats m d ne,
  none_copied target d threats,
  once target,
  once source,
  once m,
)

checked_once :
    (fleet : Fleet) (source target : ℕ) (now : Instant) (m : ℕ)
    → (source == target) ≡ false
    → IsSound fleet
    → open_of m (natimai_tiai.Check.move_to fleet.checks source target now) ≤ 1
checked_once fleet source target now m ne sound = ground (
  arith,
  open-move_to fleet.checks source target now m ne,
  sound.checks_once target,
  sound.checks_once source,
  sound.checks_once m,
)

knows_merged :
    (threats : List Threat) (source target : ℕ) (d : String)
    → (source == target) ≡ false
    → (knows target d (merge_threats threats source target)
        ≡ (knows target d threats || knows source d threats))
      × (knows source d (merge_threats threats source target) ≡ false)
unfolding merge_threats
knows_merged threats source target d ne =
    let after = merge_threats threats source target in
    (
      ground (
        arith,
        ne,
        none_copied target d after,
        moved_copies source target threats threats target d ne,
        none_copied target d threats,
        none_copied source d threats,
      ),
      ground (
        arith,
        ne,
        none_copied source d after,
        moved_copies source target threats threats source d ne,
      ),
    )

distinct_ids : {a b : ℕ} → (a == b) ≡ false → a ≢ b
distinct_ids e = ground arith

merged-HasMoved :
    (fleet : Fleet) (target source : Machine) (now : Instant) (uptimes : List Uptime)
    → (source.id == target.id) ≡ false
    → ((m : ℕ) (h : Instant)
        → seconds_of uptimes m h ≡ (
            if m == source.id
            then 0
            else if m == target.id
            then cap (seconds_of fleet.uptimes target.id h + seconds_of fleet.uptimes source.id h)
            else seconds_of fleet.uptimes m h))
    → HasMoved source.id target.id fleet (merged fleet target source now uptimes)
unfolding merged
merged-HasMoved fleet target source now uptimes ne counted = record {
  postes = postes_kept source target now fleet.machines;
  commands = λ m. commands-moved source.id target.id ne fleet.commands m;
  commands_said = commands_said source.id target.id fleet.commands;
  interventions = λ m. interventions-moved source.id target.id ne fleet.interventions m;
  interventions_said = interventions_said source.id target.id fleet.interventions;
  checks = λ m. checks-moved fleet.checks source.id target.id now m ne;
  seconds = counted;
}

merged-IsGone :
    (fleet : Fleet) (target source : Machine) (now : Instant) (uptimes : List Uptime)
    → (source.id == target.id) ≡ false
    → IsGone source.id (merged fleet target source now uptimes)
unfolding merged merge_threats
merged-IsGone fleet target source now uptimes ne = record {
  row = row_gone source target now fleet.machines ne;
  threats =
      threats-left source.id target.id ne
        (select (λ t. not (collides source.id target.id fleet.threats t)) fleet.threats);
  relayed = none_relayed source.id target.id ne fleet.commands;
}

-- Merging two postes of a sound fleet is never refused: no poste has a detection twice or two open
-- checks afterwards and the counters are valid; the kept poste knows every detection that either
-- knew; the commands, the interventions and the checks of the other are its own, beside those it
-- had, what the interventions and the commands say being as it was, and each hour has the seconds
-- of both, up to the cap; nothing stays under the other, no row of its own, no detection and no
-- command that it relayed; and the other postes all stay, with as many commands, interventions and
-- checks as before, and their seconds.
pub merge-IsSound :
    (fleet : Fleet) (target source : Machine) (now : Instant)
    → (source.id == target.id) ≡ false
    → IsSound fleet
    → (fleet' : Fleet) × (merge_into fleet target source now ≡ some fleet')
      × IsSound fleet'
      × ((d : String)
          → (knows target.id d fleet'.threats
              ≡ (knows target.id d fleet.threats || knows source.id d fleet.threats))
            × (knows source.id d fleet'.threats ≡ false))
      × HasMoved source.id target.id fleet fleet'
      × IsGone source.id fleet'
unfolding merge_into merged
merge-IsSound fleet target source now ne sound =
    let (uptimes, moved, valid, counted) =
      merge_counters source.id target.id fleet.uptimes (distinct_ids ne) sound.counters in
    (
      merged fleet target source now uptimes,
      rw (moved, merge_into) refl,
      record {
        detections_once = λ m d.
            merged_once fleet.threats source.id target.id m d ne (λ n. sound.detections_once n d);
        checks_once = λ m. checked_once fleet source.id target.id now m ne sound;
        counters = valid;
      },
      λ d. knows_merged fleet.threats source.id target.id d ne,
      merged-HasMoved fleet target source now uptimes ne counted,
      merged-IsGone fleet target source now uptimes ne,
    )
