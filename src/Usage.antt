-- ===== src/Usage.antt =====
-- backend/app/features/usage: how long each poste was on, from its heartbeats.
pub mod Accounting
pub mod Counters
