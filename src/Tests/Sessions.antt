-- ===== src/Tests/Sessions.antt =====
-- A session opened at login, refreshed twice, and a copy of its first token.
use natimai_tiai.Prelude.{
  ◌≡◌, ◌≤◌, ◌+◌, refl, true, none, some, String, List, [], ◌∷◌, arith, string_eq,
}
use natimai_tiai.Prelude.Time.{Instant, days}
use natimai_tiai.AuthSession.{
  AuthSession, Token, malformed, refresh_token, reused, invalid, Settings, expiry, is_live,
  refresh_row, rotated_row,
}
use natimai_tiai.AuthSession.Refresh.{IsHeld, keeps_up, browse, browser_kept, theft_closes}

abbrev hash : Token → String
hash malformed = ""
hash (refresh_token i s) = s

abbrev settings : Settings
settings = record { refresh_token_expire_days = 7; session_max_days = 30 }

abbrev login : AuthSession
login = record {
  id = 1;
  user_id = 5;
  refresh_token_hash = "a";
  previous_refresh_token_hash = none;
  created_at = 0;
  last_used_at = 0;
  expires_at = days 7;
  revoked_at = none;
  user_agent = none;
  ip = none;
}

abbrev visits : List (Instant × String)
visits = (days 6, "b") ∷ (days 12, "c") ∷ []

login-IsHeld : IsHeld hash settings (refresh_token 1 "a") login
unfolding expiry
login-IsHeld = record { current = refl; unrevoked = refl; ends = refl }

visits_in_time : keeps_up hash settings visits login ≡ true
unfolding rotated_row
visits_in_time = refl

browser_kept_example :
    (token' : Token) × (row' : AuthSession) × (browse hash settings visits
        (refresh_token 1 "a")
        login
      ≡ some (token', row'))
    × IsHeld hash settings token' row'
    × (row'.expires_at ≤ 0 + days 30)
browser_kept_example =
    browser_kept hash settings visits (refresh_token 1 "a") login login-IsHeld visits_in_time

login-live : is_live login (days 1) ≡ true
unfolding is_live
login-live = refl

theft_closes_example :
    let q = refresh_row hash settings (refresh_token 1 "z") (days 1) "b" login in
    (q.0 ≡ reused)
    × (refresh_row hash settings (refresh_token 1 "a") (days 2) "c" q.1 ≡ (invalid, q.1))
theft_closes_example =
    theft_closes hash settings (refresh_token 1 "z") (refresh_token 1 "a") (days 1) (days 2) "b" "c"
      login login-live refl (omega arith)
