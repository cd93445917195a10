-- ===== src/Tests.antt =====
-- The theorems at concrete inputs: tokens and queue, wakes, access, maintenance with counters,
-- sessions, enrolments with the status of a poste, the background work, accounts, packages,
-- the updates of Windows and the rooms of a directory.
mod Tokens
mod Queue
mod Wakes
mod Access
mod Upkeep
mod Sessions
mod Machines
mod Background
mod Accounts
mod Roster
mod Packages
mod Updates
mod Rooms
