-- ===== src/Maintenance.antt =====
-- backend/app/features/maintenance: when a poste is due, and the visits that move it forward.
pub mod Policy
pub mod Visits
