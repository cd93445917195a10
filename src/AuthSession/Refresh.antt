-- ===== src/AuthSession/Refresh.antt =====
-- The life of a session's refresh tokens: a browser that keeps up is never thrown out, a session
-- never outlives its ceiling, and a copied token ends the session for both who hold it.
use natimai_tiai.Prelude.{
  ◌+◌, ◌≤◌, ◌<◌, ◌≡◌, refl, Bool, true, false, Option, none, some, String, List, [], ◌∷◌, arith,
  ltb, leb, is_null, ◌==◌, string_eq, eq_value, ==_refl, ◌&&◌, ap, ◌∙◌,
}
use natimai_tiai.Prelude.Time.{Instant, days}
use natimai_tiai.AuthSession.{
  AuthSession, Token, RefreshOutcome, refresh_token, rotated, invalid, reused, Settings, expiry,
  is_live, refresh_row, rotated_row, refresh_reuse_grace,
}

module _ (hash_token : Token → String) (settings : Settings) where
  -- A revoked or expired session answers nothing and is not written.
  dead_invalid :
      (token : Token) (now : Instant) (secret : String) (row : AuthSession)
      → is_live row now ≡ false
      → refresh_row hash_token settings token now secret row ≡ (invalid, row)
  unfolding refresh_row
  dead_invalid token now secret row dead = rw dead refl

  reused_row :
      (token : Token) (now : Instant) (secret : String) (row : AuthSession)
      → is_live row now ≡ true
      → (hash_token token == row.refresh_token_hash) ≡ false
      → row.last_used_at + refresh_reuse_grace < now
      → refresh_row hash_token settings token now secret row
        ≡ (reused, record row { revoked_at = some now })
  unfolding refresh_row
  reused_row token now secret row live stale late =
      let past : (eq_value row.previous_refresh_token_hash (hash_token token)
            && leb now (row.last_used_at + refresh_reuse_grace))
          ≡ false =
        ground arith in
      rw live (rw stale (rw past refl))

  revoked_dead :
      (row : AuthSession) (now later : Instant)
      → is_live (record row { revoked_at = some now }) later ≡ false
  unfolding is_live
  revoked_dead row now later = refl

  -- A token that is not the current one, presented to a live session after the grace, ends the
  -- session; and no token is answered then, at any time.
  pub theft_closes :
      (token other : Token) (now later : Instant) (secret secret' : String) (row : AuthSession)
      → is_live row now ≡ true
      → (hash_token token == row.refresh_token_hash) ≡ false
      → row.last_used_at + refresh_reuse_grace < now
      → let q = refresh_row hash_token settings token now secret row in
        (q.0 ≡ reused) × (refresh_row hash_token settings other later secret' q.1 ≡ (invalid, q.1))
  theft_closes token other now later secret secret' row live stale late =
      let e = reused_row token now secret row live stale late in
      let q = refresh_row hash_token settings token now secret row in
      (
        ap (λ r. r.0) e,
        dead_invalid other later secret' q.1
            (ap (λ r. is_live r.1 later) e ∙ revoked_dead row now later),
      )

  -- The requests of one browser, each with its time and the secret drawn for it: each comes before
  -- the session left by the one before has expired, and before the session's ceiling.
  abbrev pub keeps_up : List (Instant × String) → AuthSession → Bool
  keeps_up [] row = true
  keeps_up ((now, secret) ∷ visits) row =
      ltb now (row.last_used_at + days settings.refresh_token_expire_days)
      && (ltb now (row.created_at + days settings.session_max_days)
          && keeps_up visits
              (rotated_row hash_token settings row now (refresh_token row.id secret)))

  -- The browser that stores each token it is handed; `none` once it is handed none.
  pub browse : List (Instant × String) → Token → AuthSession → Option (Token × AuthSession)
  browse [] token row = some (token, row)
  browse ((now, secret) ∷ visits) token row =
      let (outcome, row') = refresh_row hash_token settings token now secret row in
      elim outcome [ rotated new_token ↦ browse visits new_token row' | _ ↦ none ]

  -- The browser holds the current token of a session that is open until its expiry.
  pub record IsHeld (token : Token) (row : AuthSession) : Type 0 where
    pub current : (hash_token token == row.refresh_token_hash) ≡ true
    pub unrevoked : is_null row.revoked_at ≡ true
    pub ends : row.expires_at ≡ expiry settings row.created_at row.last_used_at

  held_live :
      (token : Token) (now : Instant) (row : AuthSession)
      → IsHeld token row
      → now < row.last_used_at + days settings.refresh_token_expire_days
      → now < row.created_at + days settings.session_max_days
      → is_live row now ≡ true
  unfolding is_live expiry
  held_live token now row held sliding ceiling = ground (arith, held.unrevoked, held.ends)

  rotates :
      (token : Token) (now : Instant) (secret : String) (row : AuthSession)
      → IsHeld token row
      → now < row.last_used_at + days settings.refresh_token_expire_days
      → now < row.created_at + days settings.session_max_days
      → refresh_row hash_token settings token now secret row ≡ (
        rotated (refresh_token row.id secret),
        rotated_row hash_token settings row now (refresh_token row.id secret),
      )
  unfolding refresh_row
  rotates token now secret row held sliding ceiling =
      rw (held_live token now row held sliding ceiling) (rw held.current refl)

  rotated-IsHeld :
      (token : Token) (now : Instant) (secret : String) (row : AuthSession)
      → IsHeld token row
      → IsHeld
          (refresh_token row.id secret)
          (rotated_row hash_token settings row now (refresh_token row.id secret))
  unfolding rotated_row
  rotated-IsHeld token now secret row held = record {
    current = ==_refl (hash_token (refresh_token row.id secret));
    unrevoked = held.unrevoked;
    ends = refl;
  }

  browse-rotates :
      (now : Instant) (secret : String) (visits : List (Instant × String)) (token : Token)
      (row : AuthSession)
      → refresh_row hash_token settings token now secret row ≡ (
        rotated (refresh_token row.id secret),
        rotated_row hash_token settings row now (refresh_token row.id secret),
      )
      → browse ((now, secret) ∷ visits) token row
        ≡ browse visits
            (refresh_token row.id secret)
            (rotated_row hash_token settings row now (refresh_token row.id secret))
  unfolding browse
  browse-rotates now secret visits token row e =
      ap
        (λ (q : RefreshOutcome × AuthSession). elim q.0 [
          | rotated new_token ↦ browse visits new_token q.1
          | _ ↦ none
        ])
        e

  rotated_row-kept :
      (row : AuthSession) (now : Instant) (token : Token)
      → (rotated_row hash_token settings row now token).created_at ≡ row.created_at
  unfolding rotated_row
  rotated_row-kept row now token = refl

  held-ceiling :
      (token : Token) (row : AuthSession)
      → IsHeld token row
      → row.expires_at ≤ row.created_at + days settings.session_max_days
  unfolding expiry
  held-ceiling token row held = omega (arith, held.ends)

  -- A browser that stores the tokens it is handed and comes back each time before its session
  -- expires and before the ceiling is never thrown out: each of its refreshes rotates, it ends with
  -- the current token of an open session, and the session still ends at the ceiling of its opening.
  pub browser_kept :
      (visits : List (Instant × String)) (token : Token) (row : AuthSession)
      → IsHeld token row
      → keeps_up visits row ≡ true
      → (token' : Token) × (row' : AuthSession) × (browse visits token row ≡ some (token', row'))
        × IsHeld token' row'
        × (row'.expires_at ≤ row.created_at + days settings.session_max_days)
  browser_kept [] token row held h =
      (token, row, unfold browse in refl, held, held-ceiling token row held)
  browser_kept ((now, secret) ∷ visits) token row held h =
      let sliding : now < row.last_used_at + days settings.refresh_token_expire_days =
        ground arith in
      let ceiling : now < row.created_at + days settings.session_max_days = ground arith in
      let next = rotated_row hash_token settings row now (refresh_token row.id secret) in
      let (token', row', same, held', bound) =
        browser_kept visits (refresh_token row.id secret) next
          (rotated-IsHeld token now secret row held) (ground arith) in
      (
        token',
        row',
        browse-rotates now secret visits token row
              (rotates token now secret row held sliding ceiling)
            ∙ same,
        held',
        omega (arith, bound, rotated_row-kept row now (refresh_token row.id secret)),
      )
