-- ===== src/User/Requests.antt =====
-- The writing requests of backend/app/api/routes/users.py and groups.py, as one: what the console
-- may ask of the accounts and the groups, and which handler answers.
pub mod Aspects
pub mod Gains
pub mod Tables
pub mod GroupGains
pub mod NoGain
pub mod Managers
pub mod Lockout
use natimai_tiai.Prelude.{ℕ, Option, String}
use natimai_tiai.User.Scope.{Places}
use natimai_tiai.User.Groups.{Ids, Roster}
use natimai_tiai.User.Edits.{
  Caller, Words, UserCreate, UserUpdate, create_user, update_user, delete_user, reset_password,
  Reply,
}
use natimai_tiai.User.GroupEdits.{
  GroupCreate, GroupUpdate, create_group, update_group, delete_group,
}

-- The identifier and, of a reset, the password drawn are the server's.
pub data Request : Type 0 where
  creates_user : ℕ → UserCreate → Request
  updates_user : ℕ → UserUpdate → Request
  deletes_user : ℕ → Request
  resets_password : ℕ → Option String → String → Request
  creates_group : ℕ → GroupCreate → Request
  updates_group : ℕ → GroupUpdate → Request
  deletes_group : ℕ → Request

module _ (ids : Ids) (words : Words) (normalize_email lower hash_password strip : String → String)
    (places : Places) where
  unfoldable pub handle : Request → Caller → Roster → Reply
  handle (creates_user id payload) c db =
      create_user ids words normalize_email lower hash_password id c payload db
  handle (updates_user id f) c db =
      update_user ids words normalize_email lower hash_password id c f db
  handle (deletes_user id) c db = delete_user ids words normalize_email lower hash_password id c db
  handle (resets_password id typed generated) c db =
      reset_password ids words normalize_email lower hash_password id c typed generated db
  handle (creates_group id payload) c db = create_group ids words strip places id c payload db
  handle (updates_group id f) c db = update_group ids words strip places id c f db
  handle (deletes_group id) c db = delete_group ids words strip places id c db
