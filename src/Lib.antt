-- ===== src/Lib.antt =====
-- Tia'i is a console for the Windows postes of a group of schools. Its server, in backend/app, keeps a
-- row to a poste, queues commands for the agents that poll it, wakes sleeping postes through their
-- neighbours, counts the hours that each poste is on, plans maintenance visits, and decides who sees
-- and does what. This development models the operations of that server that carry rules of their own:
-- the handlers as functions from the rows and the clock to the rows written and the answer given.
--
-- The parts, each with the file that models it, paths being those of the repository:
--
-- * Machine.antt is the row of backend/app/features/machine/models.py. Machine/TokenRotation.antt is
--   token_rotation.py beside it (rotation_due, offer_new_token, promote_pending, reset_rotation,
--   machine_for_token), with get_current_machine of backend/app/api/deps.py (authenticate) and the end
--   of the heartbeat (rotate). TokenRotation/Protocol.antt runs an agent against its row: a request
--   whose answer is lost is one whose token the agent does not store.
--   Machine/Status.antt is status.py there, with recompute_up_to_date of crud.py: who is protected, who
--   is on, and the filters of the console's list. Machine/Fingerprint.antt is fingerprint.py there, and
--   Machine/Enrollment.antt the handler `enroll` of backend/app/api/routes/agent.py: a first token, a
--   request held for approval, a refusal; Machine/Heartbeat.antt is the part of `heartbeat` there that
--   writes the row. The enrolment writes to Audit.antt, the log of
--   backend/app/features/audit.
-- * Command.antt is backend/app/features/command/models.py, the closed catalogue and the row.
--   Command/Queue.antt is crud.py beside it (machines_with_open_command, create_for_machines,
--   mark_expired, purge_before). Command/Delivery.antt is the command part of `heartbeat` in
--   backend/app/api/routes/agent.py, Command/Result.antt is `command_result` there.
--   Command/Lifecycle.antt joins every write of a row, the relay's included, in one step relation.
-- * Wol/Packet.antt is backend/app/features/wol/packet.py (parse_mac, normalize_mac, magic_packet).
--   Wol/Address.antt is the part of Python's ipaddress that the relay reads. Wol/Relay.antt and
--   Wol/Relay/Claims.antt are relay.py: who may relay a wake, the queueing, the claims, the end.
-- * User/Scope.antt and User/Permissions.antt are scope.py and permissions.py of
--   backend/app/features/user: what an account is confined to and what it may hand out.
--   User/Accounts.antt is models.py and the part of crud.py there on passwords, with the end of a reset
--   in backend/app/api/routes/auth.py: the login and its lockout, the links that reset a password. A new
--   password ends the sessions of AuthSession.antt.
--   User/Groups.antt, with Groups/Writes.antt, is models.py there and the part of crud.py on groups: the
--   tables of a request (Roster), the scope, the permissions and the authority that groups add up to,
--   and their writes. User/Edits.antt is backend/app/api/routes/users.py and User/GroupEdits.antt
--   groups.py beside it, every handler that changes an account or a group; User/Requests.antt joins
--   them. Answers.antt is what such a handler ends with: an error, or the tables that it commits.
-- * Package.antt is models.py and manifest.py of backend/app/features/package, with the rule of crud.py
--   on the manifest; Package/Names.antt the regular expressions, Package/Signature.antt signature.py.
--   Package/Body.antt and Package/Edits.antt are backend/app/api/routes/packages.py, every handler that
--   changes a package, with the store of storage.py; Package/Requests.antt joins them. They log to
--   Audit.antt, and ask has_permission of User/Permissions.antt.
-- * AuthSession.antt is crud.py of backend/app/features/auth_session: console sessions and the refresh
--   tokens that renew them, with the shape of a token from backend/app/core/security.py.
-- * RateLimit.antt is backend/app/core/ratelimit.py, the sliding window over a client's attempts.
-- * Worker.antt is backend/app/core/worker.py: the periodic jobs, their schedules (Worker/Calendar.antt)
--   and what a turn of the loop runs. Outbox.antt is models.py and outbox.py of
--   backend/app/features/notification: the mails owed and the worker's drain of them.
-- * Room.antt is backend/app/features/room/models.py. Room/Sites.antt is the site of a room in crud.py
--   beside it, with the writes of backend/app/api/routes/rooms.py that decide it (create_room,
--   update_room, delete_building). Room/Directory.antt, with Room/Numbered.antt and Room/Outcome.antt, is
--   the filing of postes by Active Directory in crud.py (room_for_key, place_from_directory,
--   sync_from_directory) and the block of the heartbeat that calls it.
-- * Maintenance/Policy.antt is backend/app/features/maintenance/policy.py, whose rule stands once in
--   Python and once in SQL, and Maintenance/Visits.antt is record_session of crud.py beside it.
-- * Threat.antt is backend/app/features/threat, the upsert of the detections that a poste reports, and
--   Check.antt backend/app/features/check, the requests to go and look at a poste. Machine/Merge.antt is
--   merge_into of backend/app/features/machine/crud.py, which folds a duplicate poste into the one to
--   keep: it calls the moves of the checks, of the interventions and of the usage.
-- * WindowsUpdate.antt is backend/app/features/windows_update, the updates pending on a poste, with the
--   block of the heartbeat that replaces them.
-- * Usage/Accounting.antt is accounting.py and Usage/Counters.antt the writes of crud.py in
--   backend/app/features/usage: hour by hour, the seconds that a poste was on.
--
-- Conventions. An identifier (a UUID) is a number, and new identifiers are arguments. An instant is the
-- count of microseconds that Python's aware datetime stands for, a duration a number of microseconds.
-- A table is the list of its rows; a query is a selection by its WHERE clause, read on nullable
-- columns as SQL does where only `and` and `or` join the tests (Prelude/Sql.antt); a statement that the
-- database refuses (a row touched twice, a value past a check) is `none`, and on the rooms `too_long`.
-- What one request commits is the table that its function returns, so that one request runs at a
-- time. Settings are arguments.
--
-- Parameters stand for what is not in the repository or only words an answer: hash_token (SHA-256,
-- which is only compared), the token drawn, the printed form of a UUID, the texts for the
-- administrator, the delivery of a package, SQL's lower and Python's strip and lower on the hardware's
-- identifier and on an address of mail, the answer of the mail provider, the comparison and the hash of
-- a password, the texts that the log words a list with, what a job of the worker does, the JSON text of
-- a manifest, and the cryptography that reads a certificate and checks a signature.
--
-- Fuel: the loop of credit_for_gap has one round for each whole hour between the two beats and one
-- more; the credits of a run add up to its span because that is enough. The search for the name of a
-- room has one round for each room and two more, since each name that is taken is that of another
-- room; the digits of a number have as many rounds as the number and one more.
--
-- Not modelled: the mail transports, the exports and the database session, which are input and
-- output; the console's other routes, glue over the modelled features; the migrations; the width of
-- the columns, where no operation bounds a text by it, but for those of a room's name and key; the
-- agent, the frontend and the deployment scripts, in other languages; and, left aside to keep the
-- library to a size that is read, the order of agent versions, the digest and its recipients, the
-- values of the settings and the hardware inventory.
pub mod Prelude
pub mod Answers
pub mod Audit
pub mod Check
pub mod Machine
pub mod Outbox
pub mod Package
pub mod RateLimit
pub mod Room
pub mod User
pub mod Maintenance
pub mod Usage
pub mod Command
pub mod AuthSession
pub mod Wol
pub mod WindowsUpdate
pub mod Worker
pub mod Tests
pub mod Threat
