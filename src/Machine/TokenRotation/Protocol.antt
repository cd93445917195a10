-- ===== src/Machine/TokenRotation/Protocol.antt =====
-- The rotation between a poste's agent and its row, under lost responses: the agent is never locked
-- out, and a token that was replaced opens nothing.
use natimai_tiai.Prelude.{
  ℕ, ◌≡◌, ◌∙◌, ap, ap₂, Bool, true, false, Option, none, some, String, List, [], ◌∷◌, arith,
  eq_value, string_eq, if◌then◌else◌, ◌==◌, ==_refl,
}
use natimai_tiai.Prelude.Time.{Instant}
use natimai_tiai.Machine.{Machine}
use natimai_tiai.Machine.TokenRotation.{
  is_token_of, use_token, rotate, accepted, token_revoked_error, authenticate, verdict,
}

-- One authenticated request: a heartbeat or another call, from an agent that stores a new token or
-- not; a response that never arrives is one that is not stored.
pub record Request : Type 0 where
  pub now : Instant
  pub heartbeat : Bool
  pub supports_token_rotation : Bool
  pub drawn : String
  pub stored : Bool

-- What the agent holds, and its row.
pub record Link : Type 0 where
  pub token : String
  pub row : Machine

module _ (hash_token : String → String) (rotate_days : ℕ) where
  -- The token that the agent goes on with.
  abbrev next_token : String → Bool → Option String → String
  next_token token stored none = token
  next_token token stored (some new) = if stored then new else token

  pub exchange : Request → Link → Link
  unfolding use_token rotate
  exchange r l =
      let m = use_token hash_token l.row l.token r.now in
      if r.heartbeat
      then (let (m', offered) =
            rotate hash_token m r.supports_token_rotation r.now rotate_days r.drawn in
          record { token = next_token l.token r.stored offered; row = m' })
      else record { token = l.token; row = m }

  pub exchanges : List Request → Link → Link
  unfolding exchange
  exchanges [] l = l
  exchanges (r ∷ rs) l = exchanges rs (exchange r l)

  -- The agent's token is its row's current or pending one, and the row is not revoked.
  pub record IsHonoured (l : Link) : Type 0 where
    pub known : is_token_of hash_token l.token l.row ≡ true
    pub live : l.row.token_revoked ≡ false

  exchange-IsHonoured : (r : Request) (l : Link) → IsHonoured l → IsHonoured (exchange r l)
  unfolding exchange is_token_of
  exchange-IsHonoured r l h =
      ground (arith, h.known, h.live, ==_refl (hash_token l.token), ==_refl (hash_token r.drawn))

  exchanges-IsHonoured : (rs : List Request) (l : Link) → IsHonoured l → IsHonoured (exchanges rs l)
  unfolding exchanges
  exchanges-IsHonoured [] l h = h
  exchanges-IsHonoured (r ∷ rs) l h =
      exchanges-IsHonoured rs (exchange r l) (exchange-IsHonoured r l h)

  authenticate-first :
      (m : Machine) (t : String) (others : List Machine) (now : Instant)
      → is_token_of hash_token t m ≡ true
      → authenticate hash_token (m ∷ others) (some t) now
        ≡ (verdict (some (use_token hash_token m t now)), use_token hash_token m t now ∷ others)
  unfolding authenticate
  authenticate-first m t others now known = rw known

  use_token-revoked :
      (m : Machine) (t : String) (now : Instant)
      → (use_token hash_token m t now).token_revoked ≡ m.token_revoked
  unfolding use_token
  use_token-revoked m t now = ground arith

  use_token-frozen :
      (m : Machine) (t : String) (now : Instant)
      → m.token_revoked ≡ true
      → use_token hash_token m t now ≡ m
  unfolding use_token
  use_token-frozen m t now revoked = simp revoked

  verdict-live : (m : Machine) → m.token_revoked ≡ false → verdict (some m) ≡ accepted m
  unfolding verdict
  verdict-live m live = simp live

  verdict-revoked : (m : Machine) → m.token_revoked ≡ true → verdict (some m) ≡ token_revoked_error
  unfolding verdict
  verdict-revoked m revoked = simp revoked

  -- The agent is never locked out: from a row that honours its token, whatever the requests it
  -- makes, the tokens drawn, the responses lost or not stored and the rotation's period, the next
  -- request with the token that it then holds is authenticated as its own machine.
  pub no_lockout :
      (rs : List Request) (l : Link) (others : List Machine) (now : Instant)
      → IsHonoured l
      → let l' = exchanges rs l in
        authenticate hash_token (l'.row ∷ others) (some l'.token) now ≡ (
          accepted (use_token hash_token l'.row l'.token now),
          use_token hash_token l'.row l'.token now ∷ others,
        )
  no_lockout rs l others now h =
      let k = exchanges-IsHonoured rs l h in
      let l' = exchanges rs l in
      let m = use_token hash_token l'.row l'.token now in
      authenticate-first l'.row l'.token others now k.known
      ∙ ap (λ a. (a, m ∷ others)) (verdict-live m (use_token-revoked l'.row l'.token now ∙ k.live))

  -- The first request with an offered token retires every other one: a token is then accepted
  -- exactly when it has that token's hash.
  pub promotion_retires :
      (m : Machine) (new t : String) (now : Instant)
      → m.token_revoked ≡ false
      → m.pending_token_hash ≡ some (hash_token new)
      → eq_value m.token_hash (hash_token new) ≡ false
      → is_token_of hash_token t (use_token hash_token m new now) ≡ (hash_token new == hash_token t)
  unfolding is_token_of use_token
  promotion_retires m new t now live pending fresh = ground arith

  -- A revoked machine's token is refused and moves nothing, its pending token included: neither
  -- the row nor any other of the table is written.
  pub revoked_refused :
      (m : Machine) (others : List Machine) (t : String) (now : Instant)
      → m.token_revoked ≡ true
      → is_token_of hash_token t m ≡ true
      → authenticate hash_token (m ∷ others) (some t) now ≡ (token_revoked_error, m ∷ others)
  revoked_refused m others t now revoked known =
      authenticate-first m t others now known
      ∙ ap₂ (λ a r. (a, r ∷ others))
          (ap (λ r. verdict (some r)) (use_token-frozen m t now revoked)
            ∙ verdict-revoked m revoked)
          (use_token-frozen m t now revoked)
