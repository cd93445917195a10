-- ===== src/User/Accounts.antt =====
-- backend/app/features/user/models.py and the part of crud.py on passwords: the login with its
-- lockout, the change of a password, and the links that reset one, with `confirm_password_reset` of
-- backend/app/api/routes/auth.py. The console's preferences of an account are left out. `normalize`
-- is Python's strip and lower, `lower` SQL's, and a password is compared and hashed by a library.
pub mod Lockout
pub mod ResetLink
use natimai_tiai.Prelude.{
  ℕ, ◌+◌, ◌*◌, suc, Bool, true, false, not, ◌&&◌, ◌||◌, Option, none, some, String, List, [], ◌∷◌,
  ◌++◌, select, leb, ltb, gt_value, is_null, is_not_null, string_eq, nat_eq, ◌==◌, if◌then◌else◌,
}
use natimai_tiai.Prelude.Time.{Instant, seconds}
use natimai_tiai.AuthSession.{AuthSession, revoke_all}

pub data EmailPreference : Type 0 where
  no_mail immediate digest_events digest_daily : EmailPreference

pub record User : Type 0 where
  pub id : ℕ
  pub email : String
  pub hashed_password : String
  pub full_name : Option String
  pub email_preference : EmailPreference
  pub is_active : Bool
  pub password_changed_at : Option Instant
  pub failed_login_attempts : ℕ
  pub locked_until : Option Instant
  pub created_at : Instant
  pub updated_at : Instant

pub record PasswordResetToken : Type 0 where
  pub id : ℕ
  pub user_id : ℕ
  pub token_hash : String
  pub expires_at : Instant
  pub used_at : Option Instant
  pub created_at : Instant

pub record LoginSettings : Type 0 where
  pub max_failed_attempts : ℕ
  pub lockout_minutes : ℕ
  pub reset_expire_minutes : ℕ

abbrev pub minutes : ℕ → ℕ
minutes n = seconds (n * 60)

-- How a login ends: `AccountLockedError` is `locked`, with `just_locked`.
pub data LoginOutcome : Type 0 where
  logged_in refused : LoginOutcome
  locked : Instant → Bool → LoginOutcome

abbrev pub locked_at : Instant → User → Option Instant
locked_at now u = elim u.locked_until [
  | none ↦ none
  | some until ↦ if ltb now until then some until else none
]

-- `session.get(User, id)`
unfoldable pub user_by_id : List User → ℕ → Option User
user_by_id [] i = none
user_by_id (u ∷ users) i = if u.id == i then some u else user_by_id users i

unfoldable pub put_user : User → List User → List User
put_user u' [] = []
put_user u' (u ∷ users) =
    let rest = put_user u' users in if u.id == u'.id then u' ∷ users else u ∷ rest

module _ (verify_password : String → String → Bool) (settings : LoginSettings) where
  -- What `authenticate` does with an active account
  failed : Instant → User → LoginOutcome × User
  failed now u =
      let until = now + minutes settings.lockout_minutes in
      if leb settings.max_failed_attempts (suc u.failed_login_attempts)
      then (locked until true, record u { failed_login_attempts = 0; locked_until = some until })
      else (refused, record u { failed_login_attempts = suc u.failed_login_attempts })

  succeeded : User → LoginOutcome × User
  succeeded u =
      if not (u.failed_login_attempts == 0) || is_not_null u.locked_until
      then (logged_in, record u { failed_login_attempts = 0; locked_until = none })
      else (logged_in, u)

  pub login_row : String → Instant → User → LoginOutcome × User
  unfolding failed succeeded
  login_row password now u = elim (locked_at now u) [
    | some until ↦ (locked until false, u)
    | none ↦ if verify_password password u.hashed_password then succeeded u else failed now u
  ]

  -- `authenticate`; the address finds one row at most.
  pub authenticate :
      (normalize lower : String → String)
      → String
      → String
      → Instant
      → List User
      → LoginOutcome × List User
  authenticate normalize lower email password now [] = (refused, [])
  authenticate normalize lower email password now (u ∷ users) =
      let (later, rest) = authenticate normalize lower email password now users in
      if lower u.email == normalize email
      then (if u.is_active
          then ((login_row password now u).0, (login_row password now u).1 ∷ users)
          else (refused, u ∷ users))
      else (later, u ∷ rest)

-- The tables of a reset
pub record Accounts : Type 0 where
  pub users : List User
  pub reset_tokens : List PasswordResetToken
  pub sessions : List AuthSession

-- `set_password`, on the row
unfoldable pub with_password : (String → String) → Instant → String → User → User
with_password hash_password now password u = record u {
  hashed_password = hash_password password;
  password_changed_at = some now;
  updated_at = now;
  failed_login_attempts = 0;
  locked_until = none;
}

unfoldable pub set_password : (String → String) → Instant → String → User → Accounts → Accounts
set_password hash_password now password u db = record db {
  users = put_user (with_password hash_password now password u) db.users;
  sessions = (revoke_all db.sessions u.id now).0;
}

-- `purge_reset_tokens`
pub purge_reset_tokens : ℕ → List PasswordResetToken → List PasswordResetToken
purge_reset_tokens user_id rows =
    select (λ (r : PasswordResetToken). not (r.user_id == user_id)) rows

-- `create_reset_token`, on the token drawn
pub create_reset_token :
    LoginSettings
    → (String → String)
    → ℕ
    → String
    → Instant
    → User
    → List PasswordResetToken
    → List PasswordResetToken
create_reset_token settings hash_token fresh token now u rows =
    purge_reset_tokens u.id rows
    ++ record {
      id = fresh;
      user_id = u.id;
      token_hash = hash_token token;
      expires_at = now + minutes settings.reset_expire_minutes;
      used_at = none;
      created_at = now;
    }
      ∷ []

-- The row of a token's digest, unique in the table, and its mark
unfoldable pub reset_row : String → List PasswordResetToken → Option PasswordResetToken
reset_row h [] = none
reset_row h (r ∷ rows) = if r.token_hash == h then some r else reset_row h rows

unfoldable pub mark_used : String → Instant → List PasswordResetToken → List PasswordResetToken
mark_used h now [] = []
mark_used h now (r ∷ rows) =
    let rest = mark_used h now rows in
    if r.token_hash == h then record r { used_at = some now } ∷ rows else r ∷ rest

-- The user whose link a row is, while it is good
abbrev pub good_for : List User → Instant → PasswordResetToken → Option User
good_for users now r =
    if is_not_null r.used_at || ltb r.expires_at now
    then none
    else elim (user_by_id users r.user_id) [
      | none ↦ none
      | some u ↦ if u.is_active then some u else none
    ]

-- `consume_reset_token`
unfoldable pub consume_reset_token :
    (String → String) → String → Instant → Accounts → Option (User × Accounts)
consume_reset_token hash_token token now db = elim (reset_row (hash_token token) db.reset_tokens) [
  | none ↦ none
  | some r ↦ elim (good_for db.users now r) [
    | none ↦ none
    | some u ↦
        some (u, record db { reset_tokens = mark_used (hash_token token) now db.reset_tokens })
  ]
]

-- `confirm_password_reset`; none is the answer 400, with nothing written.
unfoldable pub confirm_password_reset :
    (hash_token hash_password : String → String)
    → String
    → String
    → Instant
    → Accounts
    → Option Accounts
confirm_password_reset hash_token hash_password token new_password now db =
    elim (consume_reset_token hash_token token now db) [
      | none ↦ none
      | some consumed ↦ some (set_password hash_password now new_password consumed.0 consumed.1)
    ]
