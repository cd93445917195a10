-- ===== src/User/Accounts/Lockout.antt =====
-- How many wrong passwords an account takes in the time of a lockout.
use natimai_tiai.Prelude.{
  ℕ, ◌+◌, suc, ◌≤◌, ◌<◌, ◌≡◌, refl, arith, Bool, true, false, not, ◌&&◌, none, some, String, List,
  [], ◌∷◌, leb, ltb, all, Option-cases, if_elim, subst, sym, lt→ltb, inl, inr, if◌then◌else◌,
}
use natimai_tiai.Prelude.Time.{Instant}
use natimai_tiai.User.Accounts.{
  User, LoginSettings, LoginOutcome, logged_in, refused, locked, minutes, locked_at, failed,
  login_row,
}

-- A password was compared: the login was not stopped by a lock that stood already.
abbrev pub is_checked : LoginOutcome → Bool
is_checked logged_in = true
is_checked refused = true
is_checked (locked until just) = just

module _ (verify_password : String → String → Bool) (settings : LoginSettings) where
  -- The attempts on an account, each a password and a clock, and how many of them were compared
  abbrev pub compared : List (String × Instant) → User → ℕ
  compared [] u = 0
  compared (a ∷ attempts) u =
      (if is_checked (login_row verify_password settings a.0 a.1 u).0 then 1 else 0)
      + compared attempts (login_row verify_password settings a.0 a.1 u).1

  -- Attempts with wrong passwords, within the time of a lockout from an instant
  abbrev pub guesses : Instant → User → List (String × Instant) → Bool
  guesses start u attempts =
      all
        (λ (a : String × Instant).
          not (verify_password a.0 u.hashed_password)
          && (leb start a.1 && ltb a.1 (start + minutes settings.lockout_minutes)))
        attempts

  held_row :
      (p : String) (now until : Instant) (u : User)
      → locked_at now u ≡ some until
      → login_row verify_password settings p now u ≡ (locked until false, u)
  unfolding login_row
  held_row p now until u e = rw (e, login_row) refl

  wrong_row :
      (p : String) (now : Instant) (u : User)
      → locked_at now u ≡ none
      → verify_password p u.hashed_password ≡ false
      → login_row verify_password settings p now u ≡ failed verify_password settings now u
  unfolding login_row
  wrong_row p now u e w = rw (e, login_row) (rw w refl)

  lock_stands :
      (now until : Instant) (u : User)
      → u.locked_until ≡ some until
      → now < until
      → locked_at now u ≡ some until
  lock_stands now until u l lt = rw l (rw (lt→ltb now until lt) refl)

  -- No more of them are compared once the account is locked to the end of that time.
  locked_out :
      (start until : Instant) (attempts : List (String × Instant)) (u : User)
      → u.locked_until ≡ some until
      → start + minutes settings.lockout_minutes ≤ until
      → guesses start u attempts ≡ true
      → compared attempts u ≡ 0
  locked_out start until [] u l le g = refl
  locked_out start until (a ∷ attempts) u l le g =
      subst
        (λ (o : LoginOutcome × User). (if is_checked o.0 then 1 else 0) + compared attempts o.1 ≡ 0)
        (sym (held_row a.0 a.1 until u (lock_stands a.1 until u l (ground (arith, g, le)))))
        (omega (arith, locked_out start until attempts u l le (ground (arith, g))))

  -- Whatever wrong passwords are tried on an account, and from however many addresses, no more of
  -- them than the maximum are compared with its own within the time of a lockout, whenever that time
  -- begins; a lock or a count that stands then only lowers the number.
  pub guesses-bounded :
      (start : Instant) (attempts : List (String × Instant)) (u : User)
      → u.failed_login_attempts < settings.max_failed_attempts
      → guesses start u attempts ≡ true
      → compared attempts u + u.failed_login_attempts ≤ settings.max_failed_attempts
  unfolding failed
  guesses-bounded start [] u f g = omega (arith, f)
  guesses-bounded start (a ∷ attempts) u f g =
      let Q = (λ (o : LoginOutcome × User).
        ((if is_checked o.0 then 1 else 0) + compared attempts o.1) + u.failed_login_attempts
        ≤ settings.max_failed_attempts) in
      let rest : guesses start u attempts ≡ true = ground (arith, g) in
      elim (Option-cases (locked_at a.1 u)) [
        | inl free ↦ subst Q (sym (wrong_row a.0 a.1 u free (ground (arith, g)))) (
            if_elim Q (leb settings.max_failed_attempts (suc u.failed_login_attempts)) _ _
              (λ trips. omega (
                arith,
                f,
                locked_out start (a.1 + minutes settings.lockout_minutes) attempts _ refl
                    (ground (arith, g)) rest,
              ))
              (λ counts. omega (
                arith,
                guesses-bounded start attempts
                    (record u { failed_login_attempts = suc u.failed_login_attempts })
                    (ground (arith, counts)) rest,
              )))
        | inr (until, held) ↦
            subst Q (sym (held_row a.0 a.1 until u held))
              (omega (arith, guesses-bounded start attempts u f rest))
      ]
