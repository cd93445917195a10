-- ===== src/Tests/Accounts.antt =====
-- An account whose password is guessed, and one whose owner redeems a link.
use natimai_tiai.Prelude.{
  ◌+◌, ◌≤◌, ◌<◌, ◌≡◌, refl, arith, Bool, true, false, ◌&&◌, none, some, String, List, [], ◌∷◌, any,
  ◌==◌, string_eq, nat_eq,
}
use natimai_tiai.Prelude.Time.{Instant, days}
use natimai_tiai.AuthSession.{AuthSession, is_live, is_open_of, revoke_all}
use natimai_tiai.User.Accounts.{
  User, LoginSettings, Accounts, PasswordResetToken, digest_daily, reset_row,
  confirm_password_reset, consume_reset_token, user_by_id, put_user, with_password, set_password,
  mark_used,
}
use natimai_tiai.User.Accounts.Lockout.{compared, guesses-bounded}
use natimai_tiai.User.Accounts.ResetLink.{link-once}

abbrev account : User
account = record {
  id = 4;
  email = "owner";
  hashed_password = "secret";
  full_name = none;
  email_preference = digest_daily;
  is_active = true;
  password_changed_at = none;
  failed_login_attempts = 1;
  locked_until = none;
  created_at = 0;
  updated_at = 0;
}

abbrev settings : LoginSettings
settings = record { max_failed_attempts = 3; lockout_minutes = 15; reset_expire_minutes = 60 }

abbrev same : String → String
same s = s

abbrev verify : String → String → Bool
verify p h = p == h

abbrev tries : List (String × Instant)
tries = ("a", 10) ∷ ("b", 20) ∷ ("c", 30) ∷ ("d", 40) ∷ []

few : 1 < 3
few = omega arith

guesses-bounded_example : compared verify settings tries account + 1 ≤ 3
guesses-bounded_example = guesses-bounded verify settings 5 tries account few refl

abbrev link : PasswordResetToken
link = record {
  id = 9;
  user_id = 4;
  token_hash = "t";
  expires_at = 100;
  used_at = none;
  created_at = 0;
}

abbrev session : AuthSession
session = record {
  id = 6;
  user_id = 4;
  refresh_token_hash = "r";
  previous_refresh_token_hash = none;
  created_at = 0;
  last_used_at = 0;
  expires_at = days 30;
  revoked_at = none;
  user_agent = none;
  ip = none;
}

abbrev before : Accounts
before = record { users = account ∷ []; reset_tokens = link ∷ []; sessions = session ∷ [] }

abbrev after : Accounts
after = record {
  users =
      record account {
        hashed_password = "new";
        password_changed_at = some 50;
        updated_at = 50;
        failed_login_attempts = 0;
      }
      ∷ [];
  reset_tokens = record link { used_at = some 50 } ∷ [];
  sessions = record session { revoked_at = some 50 } ∷ [];
}

link_found : reset_row "t" (link ∷ []) ≡ some link
unfolding reset_row
link_found = refl

redeemed : confirm_password_reset same same "t" "new" 50 before ≡ some after
unfolding confirm_password_reset consume_reset_token reset_row user_by_id put_user with_password
    set_password mark_used revoke_all is_open_of
redeemed = refl

link-once_example :
    (confirm_password_reset same same "t" "other" 60 after ≡ none)
    × (any (λ (s : AuthSession). s.user_id == 4 && is_live s 60) after.sessions ≡ false)
link-once_example =
    link-once same same "t" "new" "other" 50 60 before after link link_found redeemed
