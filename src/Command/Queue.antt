-- ===== src/Command/Queue.antt =====
-- backend/app/features/command/crud.py: queueing a command on many postes without doubling an open
-- one, the expiry sweep and the retention purge. Identifiers come from `fresh`, the clock of one
-- call is one instant.
pub mod Dedup
pub mod Sweep
use natimai_tiai.Prelude.{
  ℕ, suc, Bool, true, false, ◌&&◌, not, Option, none, some, String, List, [], ◌∷◌, ◌++◌, map,
  select, any, contains, count_where, ltb, coalesce_to, coalesce, eq_value, nat_eq, ◌==◌,
  if◌then◌else◌,
}
use natimai_tiai.Prelude.Time.{Instant}
use natimai_tiai.Command.{
  Command, CommandType, CommandStatus, delivered, expired, new_command, same_type, is_pending,
  is_terminal,
}

-- The condition on the package: none where none is asked for.
abbrev pub for_package : Option ℕ → Command → Bool
for_package none c = true
for_package (some p) c = eq_value c.package_id p

-- The WHERE of `machines_with_open_command`, its list of machines aside
unfoldable pub is_open : CommandType → Option ℕ → Instant → Command → Bool
is_open type package_id now c =
    same_type c.type type
    && (not (is_terminal c.status) && (ltb now c.expires_at && for_package package_id c))

-- `machines_with_open_command`
pub machines_with_open_command : List Command → List ℕ → CommandType → Option ℕ → Instant → List ℕ
machines_with_open_command commands machine_ids type package_id now =
    map (λ (c : Command). c.machine_id)
      (select (λ (c : Command). contains machine_ids c.machine_id && is_open type package_id now c)
        commands)

-- What one call of `create_for_machines` asks for.
pub record Order : Type 0 where
  pub type : CommandType
  pub created_by : Option String
  pub expires_at : Instant
  pub package_id : Option ℕ

-- The row of one target, and the rows of all under consecutive identifiers.
pub new_row : Order → Instant → ℕ → ℕ → Command
new_row o now fresh m = record (new_command fresh m o.type now o.expires_at) {
  created_by = o.created_by;
  package_id = o.package_id;
}

pub new_rows : Order → Instant → ℕ → List ℕ → List Command
new_rows o now fresh [] = []
new_rows o now fresh (m ∷ targets) = new_row o now fresh m ∷ new_rows o now (suc fresh) targets

pub record Created : Type 0 where
  pub commands : List Command
  pub created : List ℕ
  pub skipped : List ℕ

-- `create_for_machines`
pub create_for_machines : List Command → List ℕ → Order → Instant → ℕ → Created
create_for_machines commands machine_ids o now fresh =
    let already_open = machines_with_open_command commands machine_ids o.type o.package_id now in
    let rows = new_rows o now fresh (select (λ m. not (contains already_open m)) machine_ids) in
    record {
      commands = commands ++ rows;
      created = map (λ (c : Command). c.id) rows;
      skipped = select (λ m. contains already_open m) machine_ids;
    }

abbrev pub of_machine : Option ℕ → Command → Bool
of_machine none c = true
of_machine (some m) c = c.machine_id == m

-- The WHERE of `mark_expired`, scoped to one machine when one is given
unfoldable pub is_stale : Option ℕ → Instant → Command → Bool
is_stale machine_id now c = is_pending c.status && (ltb c.expires_at now && of_machine machine_id c)

unfoldable pub expire_one : Option ℕ → Instant → Command → Command
unfolding is_stale
expire_one machine_id now c = if is_stale machine_id now c then record c { status = expired } else c

-- `mark_expired`: the table, and how many rows it wrote
unfoldable pub mark_expired : List Command → Option ℕ → Instant → List Command × ℕ
unfolding expire_one
mark_expired commands machine_id now =
    (map (expire_one machine_id now) commands, count_where (is_stale machine_id now) commands)

-- `in PURGEABLE_STATUSES`
pub is_purgeable : CommandStatus → Bool
is_purgeable delivered = true
is_purgeable s = is_terminal s

pub last_event : Command → Instant
last_event c = coalesce_to (coalesce c.finished_at c.delivered_at) c.created_at

-- `purge_before`
pub purge_before : List Command → Instant → List Command × ℕ
unfolding is_purgeable last_event
purge_before commands cutoff =
    let gone = λ (c : Command). is_purgeable c.status && ltb (last_event c) cutoff in
    (select (λ c. not (gone c)) commands, count_where gone commands)
