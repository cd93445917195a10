-- ===== src/AuthSession.antt =====
-- backend/app/features/auth_session/crud.py and models.py: console sessions and the refresh tokens
-- that renew them. `hash_token` (SHA-256) is a parameter; a token text that names no session, or no
-- UUID, is `malformed`, any other is its session's identifier and its secret (core/security.py).
pub mod Refresh
use natimai_tiai.Prelude.{
  ℕ, ◌+◌, ◌-◌, Bool, true, false, ◌&&◌, ◌||◌, not, Option, none, some, String, List, [], ◌∷◌, map,
  select, count_where, take, min, ltb, leb, eq_value, is_null, is_not_null, ◌==◌, nat_eq, string_eq,
  if◌then◌else◌,
}
use natimai_tiai.Prelude.Time.{Instant, days, seconds}

pub record AuthSession : Type 0 where
  pub id : ℕ
  pub user_id : ℕ
  pub refresh_token_hash : String
  pub previous_refresh_token_hash : Option String
  pub created_at : Instant
  pub last_used_at : Instant
  pub expires_at : Instant
  pub revoked_at : Option Instant
  pub user_agent : Option (List ℕ)
  pub ip : Option (List ℕ)

pub data Token : Type 0 where
  malformed : Token
  refresh_token : ℕ → String → Token

pub data RefreshOutcome : Type 0 where
  rotated : Token → RefreshOutcome
  concurrent invalid reused : RefreshOutcome

-- `settings` of core/config.py, the two that this module reads
pub record Settings : Type 0 where
  pub refresh_token_expire_days : ℕ
  pub session_max_days : ℕ

abbrev pub refresh_reuse_grace : ℕ
refresh_reuse_grace = seconds 30

-- `_expiry`
unfoldable pub expiry : Settings → Instant → Instant → Instant
expiry settings created_at now =
    min (now + days settings.refresh_token_expire_days)
      (created_at + days settings.session_max_days)

unfoldable pub is_live : AuthSession → Instant → Bool
is_live row now = is_null row.revoked_at && ltb now row.expires_at

-- `_bounded`
pub bounded : Option (List ℕ) → ℕ → Option (List ℕ)
bounded none length = none
bounded (some []) length = none
bounded (some (c ∷ cs)) length = some (take length (c ∷ cs))

-- `session.get(AuthSession, id)`
pub session_by_id : List AuthSession → ℕ → Option AuthSession
session_by_id [] i = none
session_by_id (row ∷ rows) i = if row.id == i then some row else session_by_id rows i

-- `revoke`, and the WHERE and the write of `revoke_all`
pub revoke : Instant → AuthSession → AuthSession
revoke now row = if is_null row.revoked_at then record row { revoked_at = some now } else row

unfoldable pub is_open_of : ℕ → AuthSession → Bool
is_open_of user_id row = row.user_id == user_id && is_null row.revoked_at

unfoldable pub revoke_all : List AuthSession → ℕ → Instant → List AuthSession × ℕ
revoke_all rows user_id now = (
  map (λ row. if is_open_of user_id row then record row { revoked_at = some now } else row) rows,
  count_where (is_open_of user_id) rows,
)

-- `purge_expired_sessions`
pub is_dead : Instant → AuthSession → Bool
is_dead now row = leb row.expires_at now || is_not_null row.revoked_at

pub purge_expired_sessions : List AuthSession → Instant → List AuthSession × ℕ
purge_expired_sessions rows now =
    (select (λ row. not (is_dead now row)) rows, count_where (is_dead now) rows)

module _ (hash_token : Token → String) (settings : Settings) where
  -- `open_session`: the identifier and the secret are drawn
  pub open_session :
      List AuthSession
      → ℕ
      → Option (List ℕ)
      → Option (List ℕ)
      → Instant
      → ℕ
      → String
      → (AuthSession × Token) × List AuthSession
  open_session rows user_id user_agent ip now session_id secret =
      let token = refresh_token session_id secret in
      let row : AuthSession = record {
        id = session_id;
        user_id = user_id;
        refresh_token_hash = hash_token token;
        previous_refresh_token_hash = none;
        created_at = now;
        last_used_at = now;
        expires_at = expiry settings now now;
        revoked_at = none;
        user_agent = bounded user_agent 255;
        ip = bounded ip 45;
      } in
      ((row, token), row ∷ rows)

  unfoldable pub rotated_row : AuthSession → Instant → Token → AuthSession
  rotated_row row now new_token = record row {
    previous_refresh_token_hash = some row.refresh_token_hash;
    refresh_token_hash = hash_token new_token;
    last_used_at = now;
    expires_at = expiry settings row.created_at now;
  }

  -- `refresh`, on the row that it locks
  pub refresh_row : Token → Instant → String → AuthSession → RefreshOutcome × AuthSession
  refresh_row token now secret row =
      let new_token = refresh_token row.id secret in
      if not (is_live row now)
      then (invalid, row)
      else if hash_token token == row.refresh_token_hash
      then (rotated new_token, rotated_row row now new_token)
      else if eq_value row.previous_refresh_token_hash (hash_token token)
          && leb now (row.last_used_at + refresh_reuse_grace)
      then (concurrent, row)
      else (reused, record row { revoked_at = some now })

  -- `refresh` on the table
  pub refresh_by_id :
      ℕ → Token → Instant → String → List AuthSession → RefreshOutcome × List AuthSession
  refresh_by_id i token now secret [] = (invalid, [])
  refresh_by_id i token now secret (row ∷ rows) =
      let (outcome, rest) = refresh_by_id i token now secret rows in
      let (own, row') = refresh_row token now secret row in
      if row.id == i then (own, row' ∷ rows) else (outcome, row ∷ rest)

  pub refresh : Token → Instant → String → List AuthSession → RefreshOutcome × List AuthSession
  refresh malformed now secret rows = (invalid, rows)
  refresh (refresh_token i s) now secret rows = refresh_by_id i (refresh_token i s) now secret rows

  -- `find_by_refresh_token`
  pub is_held_by : Token → AuthSession → Instant → Bool
  is_held_by token row now =
      is_live row now
      && (hash_token token == row.refresh_token_hash
          || eq_value row.previous_refresh_token_hash (hash_token token))

  pub find_by_refresh_token : Token → Instant → List AuthSession → Option AuthSession
  find_by_refresh_token malformed now rows = none
  find_by_refresh_token (refresh_token i s) now rows = elim (session_by_id rows i) [
    | none ↦ none
    | some row ↦ if is_held_by (refresh_token i s) row now then some row else none
  ]
