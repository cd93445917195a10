-- ===== src/User.antt =====
-- backend/app/features/user: the accounts, and the places and the permissions that each holds.
pub mod Scope
pub mod Permissions
pub mod Accounts
pub mod Groups
pub mod Edits
pub mod GroupEdits
pub mod Requests
