-- ===== src/Wol.antt =====
-- backend/app/features/wol: waking a poste that is off.
pub mod Packet
pub mod Address
pub mod Relay
