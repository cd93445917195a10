-- ===== src/Machine/TokenRotation.antt =====
-- backend/app/features/machine/token_rotation.py: renewing a poste's token. `hash_token` is a
-- parameter: SHA-256 is only compared. A token that `generate_token` draws is an argument.
pub mod Protocol
use natimai_tiai.Prelude.{
  ℕ, ◌-◌, Bool, true, false, ◌||◌, not, Option, none, some, String, List, [], ◌∷◌, leb, eq_value,
  is_not_null, string_eq, if◌then◌else◌,
}
use natimai_tiai.Prelude.Time.{Instant, days}
use natimai_tiai.Machine.{Machine}

pub rotation_due : Machine → Instant → ℕ → Bool
rotation_due m now rotate_days =
    if leb rotate_days 0
    then false
    else if is_not_null m.pending_token_hash
    then true
    else leb (days rotate_days) (now - m.token_issued_at)

-- `promote_pending`
pub promote_pending : Machine → Instant → Machine
promote_pending m now = record m {
  token_hash = m.pending_token_hash;
  pending_token_hash = none;
  token_issued_at = now;
}

-- `reset_rotation`
unfoldable pub reset_rotation : Machine → Machine
reset_rotation m = record m { pending_token_hash = none }

module _ (hash_token : String → String) where
  -- `offer_new_token`, on the token drawn
  pub offer_new_token : Machine → String → Machine
  offer_new_token m token = record m { pending_token_hash = some (hash_token token) }

  -- The WHERE of `machine_for_token`
  unfoldable pub is_token_of : String → Machine → Bool
  is_token_of token m =
      eq_value m.token_hash (hash_token token) || eq_value m.pending_token_hash (hash_token token)

  -- What a match does to the row: a revoked machine is left alone, a pending token is promoted.
  pub use_token : Machine → String → Instant → Machine
  unfolding promote_pending
  use_token m token now =
      if m.token_revoked
      then m
      else if not (eq_value m.token_hash (hash_token token))
      then promote_pending m now
      else m

  -- `machine_for_token`: the first match, and the table with what was committed
  pub machine_for_token : List Machine → String → Instant → Option Machine × List Machine
  unfolding is_token_of use_token
  machine_for_token [] token now = (none, [])
  machine_for_token (m ∷ machines) token now =
      let (found, rest) = machine_for_token machines token now in
      if is_token_of token m
      then (some (use_token m token now), use_token m token now ∷ machines)
      else (found, m ∷ rest)

  -- The end of the heartbeat: the row, and the token that its response carries.
  pub rotate : Machine → Bool → Instant → ℕ → String → Machine × Option String
  unfolding rotation_due offer_new_token
  rotate m supports_token_rotation seen_at rotate_days token =
      if supports_token_rotation
      then (if rotation_due m seen_at rotate_days
          then (offer_new_token m token, some token)
          else (m, none))
      else (m, none)

-- backend/app/api/deps.py: what `get_current_machine` answers or raises.
pub data Auth : Type 0 where
  accepted : Machine → Auth
  token_missing token_invalid token_revoked_error : Auth

pub verdict : Option Machine → Auth
verdict none = token_invalid
verdict (some m) = if m.token_revoked then token_revoked_error else accepted m

-- `get_current_machine`, on the token of the `Authorization` header, if it has one
pub authenticate : (String → String) → List Machine → Option String → Instant → Auth × List Machine
unfolding machine_for_token verdict
authenticate hash_token machines none now = (token_missing, machines)
authenticate hash_token machines (some token) now =
    let (found, machines') = machine_for_token hash_token machines token now in
    (verdict found, machines')
