-- ===== src/Wol/Relay/Claims/Grace.antt =====
-- A queued wake finds a relay: the grace lets every poste of the site take it.
use natimai_tiai.Prelude.{
  ℕ, ◌+◌, ◌*◌, ◌<◌, ◌≤◌, ◌≡◌, refl, true, false, Option, some, String, ◌==◌, nat_eq, arith, ◌∙◌,
  List, [], ◌∷◌, ◌++◌, map, ap, Option-cases, inl, inr,
}
use mathlib.Core.Option.{map as option_map}
use natimai_tiai.Prelude.Time.{seconds, Instant}
use natimai_tiai.Machine.{Machine}
use natimai_tiai.Command.{Command, delivered}
use mathlib.Core.List.{map-append}
use natimai_tiai.Wol.Packet.{Text, normalize_mac}
use natimai_tiai.Wol.Address.{to_text}
use natimai_tiai.Wol.Relay.{Settings, shares_wire, may_claim, wake_row}
use natimai_tiai.Wol.Relay.Claims.{
  machine_by_id, is_claimable, mac_for, claimed, claimed_row, claim_row, claim_wakes,
}
use natimai_tiai.Wol.Relay.Claims.Once.{mac_for-target}

module _ (settings : Settings) (machines : List Machine) (relay target : Machine) where
  not_itself : shares_wire relay target ≡ true → (target.id == relay.id) ≡ false
  unfolding shares_wire
  not_itself wire = ground arith

  may_claim-late :
      (queued_at now : Instant)
      → shares_wire relay target ≡ true
      → queued_at + seconds settings.wol_relay_subnet_grace_seconds ≤ now
      → may_claim settings relay target queued_at now ≡ true
  unfolding may_claim
  may_claim-late queued_at now wire late = ground arith

  wake_row-claimable :
      (created_by : Option String) (queued_at now : Instant) (fresh : ℕ)
      → shares_wire relay target ≡ true
      → now < queued_at + seconds (settings.wol_relay_ttl_minutes * 60)
      → is_claimable relay now (wake_row settings target created_by queued_at fresh) ≡ true
  unfolding is_claimable wake_row
  wake_row-claimable created_by queued_at now fresh wire live = ground (arith, not_itself wire)

  wake_row-mac_for :
      (created_by : Option String) (queued_at now : Instant) (fresh : ℕ)
      → machine_by_id machines target.id ≡ some target
      → shares_wire relay target ≡ true
      → queued_at + seconds settings.wol_relay_subnet_grace_seconds ≤ now
      → now < queued_at + seconds (settings.wol_relay_ttl_minutes * 60)
      → mac_for settings machines relay now (wake_row settings target created_by queued_at fresh)
        ≡ normalize_mac (option_map to_text target.mac_address)
  unfolding wake_row
  wake_row-mac_for created_by queued_at now fresh found wire late live =
      mac_for-target settings machines relay target now
        (wake_row settings target created_by queued_at fresh)
        (wake_row-claimable created_by queued_at now fresh wire live) found
      ∙ rw (may_claim-late queued_at now wire late) refl

  claimed-append :
      (now : Instant) (xs ys : List Command)
      → claimed settings machines relay now (xs ++ ys)
        ≡ claimed settings machines relay now xs ++ claimed settings machines relay now ys
  unfolding claimed
  claimed-append now [] ys = refl
  claimed-append now (x ∷ xs) ys = elim (Option-cases (mac_for settings machines relay now x)) [
    | inl none_for ↦ rw (none_for, claimed) (claimed-append now xs ys)
    | inr (mac, for) ↦
        rw (for, claimed)
          (ap (λ rest. record { command = claimed_row relay now x; target_mac = mac } ∷ rest)
            (claimed-append now xs ys))
  ]

  -- A wake that was queued for a known poste whose address is readable, wherever it stands in the
  -- queue: any poste on its wire that contacts the server after the grace and before the wake
  -- expires is handed it, once, with the poste's address in canonical form, among the wakes that it
  -- is handed of the rest of the queue; and the row is then delivered under the name of that relay.
  pub wake_row-handed :
      (created_by : Option String) (queued_at now : Instant) (fresh : ℕ) (mac : Text)
      (before after : List Command)
      → machine_by_id machines target.id ≡ some target
      → shares_wire relay target ≡ true
      → normalize_mac (option_map to_text target.mac_address) ≡ some mac
      → queued_at + seconds settings.wol_relay_subnet_grace_seconds ≤ now
      → now < queued_at + seconds (settings.wol_relay_ttl_minutes * 60)
      → let wake = wake_row settings target created_by queued_at fresh in
        let taken = record wake {
          relay_machine_id = some relay.id;
          status = delivered;
          delivered_at = some now;
        } in
        ((claim_wakes settings machines relay now (before ++ wake ∷ after)).0
          ≡ (claim_wakes settings machines relay now before).0
            ++ record { command = taken; target_mac = mac }
              ∷ (claim_wakes settings machines relay now after).0)
        × ((claim_wakes settings machines relay now (before ++ wake ∷ after)).1
            ≡ (claim_wakes settings machines relay now before).1
              ++ taken ∷ (claim_wakes settings machines relay now after).1)
  unfolding claim_wakes claimed claim_row claimed_row
  wake_row-handed created_by queued_at now fresh mac before after found wire readable late live =
      let wake = wake_row settings target created_by queued_at fresh in
      let for = wake_row-mac_for created_by queued_at now fresh found wire late live ∙ readable in
      (
        claimed-append now before (wake ∷ after)
            ∙ ap (λ rest. claimed settings machines relay now before ++ rest)
                (rw (for, claimed) refl),
        map-append (claim_row settings machines relay now) before (wake ∷ after)
            ∙ ap
                (λ row.
                  map (claim_row settings machines relay now) before
                  ++ row ∷ map (claim_row settings machines relay now) after)
                (rw for refl),
      )
