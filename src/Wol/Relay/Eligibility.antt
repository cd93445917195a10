-- ===== src/Wol/Relay/Eligibility.antt =====
-- Which poste takes which wake, and how often.
use natimai_tiai.Prelude.{
  ◌+◌, ◌≡◌, Bool, true, false, ◌&&◌, ◌||◌, leb, not, none, some, ◌==◌, nat_eq, arith, Bool-cases,
  inl, inr, string_eq, option_eq,
}
use natimai_tiai.Prelude.Time.{Instant, seconds}
use natimai_tiai.Machine.{Machine}
use natimai_tiai.Command.Result.{truthy}
use natimai_tiai.Wol.Relay.{Settings, shares_wire, same_subnet, may_claim, peer_clause}

-- What the query counts as a peer of `target`, itself excluded.
abbrev pub is_peer : Machine → Machine → Bool
is_peer target m = elim (peer_clause target) [
  | none ↦ false
  | some peers ↦ peers m && not (m.id == target.id)
]

-- The query's peers of a target are the postes that share its wire.
peer_clause-shares_wire : (target relay : Machine) → is_peer target relay ≡ shares_wire relay target
unfolding peer_clause shares_wire
peer_clause-shares_wire target relay = elim (Bool-cases (truthy target.location)) [
  | inl site ↦ ground (arith, site)
  | inr elsewhere ↦ elim (Bool-cases (truthy target.domain)) [
    | inl named ↦ ground (arith, elsewhere, named)
    | inr unnamed ↦ ground (arith, elsewhere, unnamed)
  ]
]

pub may_claim_rule :
    (settings : Settings) (relay target : Machine) (queued_at now : Instant)
    → may_claim settings relay target queued_at now ≡ true
    → (shares_wire relay target ≡ true)
      × (same_subnet relay target
            || leb (queued_at + seconds settings.wol_relay_subnet_grace_seconds) now
          ≡ true)
unfolding may_claim
may_claim_rule settings relay target queued_at now h = (ground arith, ground arith)
