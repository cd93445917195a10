-- ===== src/User/Accounts/ResetLink.antt =====
-- The links that reset a password.
use natimai_tiai.Prelude.{
  ℕ, ◌≡◌, refl, arith, true, false, ◌&&◌, ◌||◌, Option, none, some, String, List, [], ◌∷◌, any, ltb,
  is_not_null, string_eq, nat_eq, ◌==◌, ==_sound, if◌then◌else◌, Option-cases, Bool-cases,
  some_injective, inl, inr, ap, sym, ◌∙◌, subst,
}
use natimai_tiai.Prelude.Time.{Instant}
use natimai_tiai.AuthSession.{AuthSession, is_open_of, is_live, revoke_all}
use natimai_tiai.User.Accounts.{
  User, Accounts, PasswordResetToken, user_by_id, set_password, reset_row, mark_used, good_for,
  consume_reset_token, confirm_password_reset,
}

reset_row-mark_used :
    (h : String) (now : Instant) (rows : List PasswordResetToken) (r : PasswordResetToken)
    → reset_row h rows ≡ some r
    → reset_row h (mark_used h now rows) ≡ some (record r { used_at = some now })
unfolding reset_row mark_used
reset_row-mark_used h now [] r e = ground arith
reset_row-mark_used h now (x ∷ rows) r e = elim (Bool-cases (x.token_hash == h)) [
  | inl same ↦ rw same (rw same (ap mark (sym (hit same) ∙ e)))
  | inr other ↦ rw other (rw other (reset_row-mark_used h now rows r (sym (miss other) ∙ e)))
]
  where
    mark : Option PasswordResetToken → Option PasswordResetToken
    mark none = none
    mark (some y) = some (record y { used_at = some now })

    hit : (x.token_hash == h) ≡ true → reset_row h (x ∷ rows) ≡ some x
    hit same = rw same refl

    miss : (x.token_hash == h) ≡ false → reset_row h (x ∷ rows) ≡ reset_row h rows
    miss other = rw other refl

user-id : (users : List User) (i : ℕ) (u : User) → user_by_id users i ≡ some u → (u.id == i) ≡ true
unfolding user_by_id
user-id [] i u e = ground arith
user-id (x ∷ users) i u e = ground (arith, user-id users i u)

-- No session of an account is live once all its sessions are revoked.
none_live :
    (sessions : List AuthSession) (user_id : ℕ) (now later : Instant)
    → any
        (λ (s : AuthSession). s.user_id == user_id && is_live s later)
        (revoke_all sessions user_id now).0
      ≡ false
unfolding revoke_all is_live is_open_of
none_live [] user_id now later = refl
none_live (s ∷ sessions) user_id now later = ground (arith, none_live sessions user_id now later)

good-id :
    (users : List User) (now : Instant) (r : PasswordResetToken) (u : User)
    → good_for users now r ≡ some u
    → (u.id == r.user_id) ≡ true
good-id users now r u e = elim (Bool-cases (is_not_null r.used_at || ltb r.expires_at now)) [
  | inl spent ↦ let never : none ≡ some u = sym (gone spent) ∙ e in cc
  | inr good ↦ from (user_by_id users r.user_id) (user-id users r.user_id) (sym (kept good) ∙ e)
]
  where
    active : Option User → Option User
    active none = none
    active (some v) = if v.is_active then some v else none

    gone : (is_not_null r.used_at || ltb r.expires_at now) ≡ true → good_for users now r ≡ none
    gone spent = rw spent refl

    kept :
        (is_not_null r.used_at || ltb r.expires_at now) ≡ false
        → good_for users now r ≡ active (user_by_id users r.user_id)
    kept good = rw good (same (user_by_id users r.user_id))
      where
        same :
            (o : Option User)
            → elim o as (λ _. Option User) [
              | none ↦ none
              | some v ↦ if v.is_active then some v else none
            ]
              ≡ active o
        same none = refl
        same (some v) = refl

    from :
        (o : Option User)
        → ((v : User) → o ≡ some v → (v.id == r.user_id) ≡ true)
        → active o ≡ some u
        → (u.id == r.user_id) ≡ true
    from none f e = cc
    from (some v) f e = elim (Bool-cases v.is_active) [
      | inl on ↦ f u (sym (is_on on) ∙ e)
      | inr off ↦ let never : none ≡ some u = sym (is_off off) ∙ e in cc
    ]
      where
        is_on : v.is_active ≡ true → active (some v) ≡ some v
        is_on on = rw on refl

        is_off : v.is_active ≡ false → active (some v) ≡ none
        is_off off = rw off refl

module _ (hash_token hash_password : String → String) where
  -- What a good link does
  confirmed :
      (t p : String) (now : Instant) (db : Accounts) (r : PasswordResetToken) (u : User)
      → reset_row (hash_token t) db.reset_tokens ≡ some r
      → good_for db.users now r ≡ some u
      → confirm_password_reset hash_token hash_password t p now db
        ≡ some (
            set_password hash_password now p u
              (record db { reset_tokens = mark_used (hash_token t) now db.reset_tokens }))
  unfolding confirm_password_reset consume_reset_token
  confirmed t p now db r u row good =
      rw (row, confirm_password_reset, consume_reset_token) (rw good refl)

  refused_link :
      (t p : String) (now : Instant) (db : Accounts) (r : PasswordResetToken)
      → reset_row (hash_token t) db.reset_tokens ≡ some r
      → good_for db.users now r ≡ none
      → confirm_password_reset hash_token hash_password t p now db ≡ none
  unfolding confirm_password_reset consume_reset_token
  refused_link t p now db r row bad =
      rw (row, confirm_password_reset, consume_reset_token) (rw bad refl)

  after_link :
      (t p : String) (now : Instant) (db : Accounts) (r : PasswordResetToken) (u : User)
      (p' : String) (later : Instant)
      → reset_row (hash_token t) db.reset_tokens ≡ some r
      → good_for db.users now r ≡ some u
      → let db' =
          set_password hash_password now p u
            (record db { reset_tokens = mark_used (hash_token t) now db.reset_tokens }) in
        (confirm_password_reset hash_token hash_password t p' later db' ≡ none)
        × (any (λ (s : AuthSession). s.user_id == r.user_id && is_live s later) db'.sessions
            ≡ false)
  unfolding set_password
  after_link t p now db r u p' later row good =
      let db' =
        set_password hash_password now p u
          (record db { reset_tokens = mark_used (hash_token t) now db.reset_tokens }) in
      (
        refused_link t p' later db' (record r { used_at = some now })
            (reset_row-mark_used (hash_token t) now db.reset_tokens r row) refl,
        ap (λ i. any (λ (s : AuthSession). s.user_id == i && is_live s later) db'.sessions)
              (sym (==_sound u.id r.user_id (good-id db.users now r u good)))
            ∙ none_live db.sessions u.id now later,
      )

  -- A link that was redeemed is refused from then on, whatever password comes with it; and no session
  -- of the account that was open before is live any more.
  pub link-once :
      (t p p' : String) (now later : Instant) (db db' : Accounts) (r : PasswordResetToken)
      → reset_row (hash_token t) db.reset_tokens ≡ some r
      → confirm_password_reset hash_token hash_password t p now db ≡ some db'
      → (confirm_password_reset hash_token hash_password t p' later db' ≡ none)
        × (any (λ (s : AuthSession). s.user_id == r.user_id && is_live s later) db'.sessions
            ≡ false)
  link-once t p p' now later db db' r row done = elim (Option-cases (good_for db.users now r)) [
    | inl bad ↦ let never = sym (refused_link t p now db r row bad) ∙ done in (cc, cc)
    | inr (u, good) ↦
        subst
          (λ (x : Accounts).
            (confirm_password_reset hash_token hash_password t p' later x ≡ none)
            × (any (λ (s : AuthSession). s.user_id == r.user_id && is_live s later) x.sessions
                ≡ false))
          (some_injective _ db' (sym (confirmed t p now db r u row good) ∙ done))
          (after_link t p now db r u p' later row good)
  ]
