-- ===== src/Wol/Relay/Claims/Once.antt =====
-- Which wakes a poste is handed, and that none is handed out twice.
use natimai_tiai.Prelude.{
  ℕ, ◌+◌, ◌<◌, ◌≡◌, refl, true, false, ◌||◌, leb, Option, none, some, List, [], ◌∷◌, select,
  is_null, nat_eq, if◌then◌else◌, arith, Bool-cases, Option-cases, inl, inr, All, ap, ◌⊎◌, sym,
  subst, ◌∙◌,
}
use mathlib.Core.Option.{map as option_map}
use natimai_tiai.Prelude.Time.{Instant, seconds}
use natimai_tiai.Machine.{Machine}
use natimai_tiai.Command.{Command}
use natimai_tiai.Wol.Packet.{normalize_mac}
use natimai_tiai.Wol.Address.{to_text}
use natimai_tiai.Wol.Relay.{Settings, shares_wire, same_subnet, may_claim}
use natimai_tiai.Wol.Relay.Eligibility.{may_claim_rule}
use natimai_tiai.Wol.Relay.Claims.{
  machine_by_id, is_claimable, mac_for, claimed_row, ClaimedWake, claim_row, claimed, claim_wakes,
}

clash {ℓ} : {A : Type ℓ} {a : A} {o : Option A} → o ≡ none → o ≡ some a → ⊥
clash n s = cc

module _ (settings : Settings) (machines : List Machine) where
  -- A row that was taken is for no poste any more.
  taken :
      (relay relay' : Machine) (now now' : Instant) (c : Command)
      → mac_for settings machines relay' now' (claimed_row relay now c) ≡ none
  unfolding mac_for is_claimable claimed_row
  taken relay relay' now now' c = ground arith

  -- What makes a wake rightly handed to `relay`.
  pub IsRightful : Machine → Instant → ClaimedWake → Type 0
  IsRightful relay now w =
      (target : Machine) × (machine_by_id machines w.command.machine_id ≡ some target)
      × (shares_wire relay target ≡ true)
      × (same_subnet relay target
            || leb (w.command.created_at + seconds settings.wol_relay_subnet_grace_seconds) now
          ≡ true)
      × (now < w.command.expires_at)
      × (normalize_mac (option_map to_text target.mac_address) ≡ some w.target_mac)
      × (w.command.relay_machine_id ≡ some relay.id)

  pub mac_for-target :
      (relay target : Machine) (now : Instant) (c : Command)
      → is_claimable relay now c ≡ true
      → machine_by_id machines c.machine_id ≡ some target
      → mac_for settings machines relay now c ≡ (
          if may_claim settings relay target c.created_at now
          then normalize_mac (option_map to_text target.mac_address)
          else none)
  unfolding mac_for
  mac_for-target relay target now c candidate found = rw candidate (rw found refl)

  mac_for-none :
      (relay : Machine) (now : Instant) (c : Command)
      → (is_claimable relay now c ≡ false) ⊎ (machine_by_id machines c.machine_id ≡ none)
      → mac_for settings machines relay now c ≡ none
  unfolding mac_for
  mac_for-none relay now c (inl refused) = rw refused refl
  mac_for-none relay now c (inr gone) = elim (Bool-cases (is_claimable relay now c)) [
    | inl b ↦ rw b (rw gone refl)
    | inr b ↦ rw b refl
  ]

  claimable-unexpired :
      (relay : Machine) (now : Instant) (c : Command)
      → is_claimable relay now c ≡ true
      → now < c.expires_at
  unfolding is_claimable
  claimable-unexpired relay now c h = ground arith

  claimed_row-kept :
      (relay : Machine) (now : Instant) (c : Command)
      → ((claimed_row relay now c).machine_id ≡ c.machine_id)
        × ((claimed_row relay now c).created_at ≡ c.created_at)
        × ((claimed_row relay now c).expires_at ≡ c.expires_at)
        × ((claimed_row relay now c).relay_machine_id ≡ some relay.id)
  unfolding claimed_row
  claimed_row-kept relay now c = (refl, refl, refl, refl)

  handed :
      (relay : Machine) (now : Instant) (c : Command) (mac : List ℕ)
      → mac_for settings machines relay now c ≡ some mac
      → IsRightful relay now (record { command = claimed_row relay now c; target_mac = mac })
  unfolding IsRightful claimed_row
  handed relay now c mac h = elim (Bool-cases (is_claimable relay now c)) [
    | inr refused ↦ absurd (clash (mac_for-none relay now c (inl refused)) h)
    | inl candidate ↦ elim (Option-cases (machine_by_id machines c.machine_id)) [
      | inl gone ↦ absurd (clash (mac_for-none relay now c (inr gone)) h)
      | inr (target, found) ↦ elim (Bool-cases (may_claim settings relay target c.created_at now)) [
        | inr refused ↦
            absurd (clash (mac_for-target relay target now c candidate found ∙ rw refused refl) h)
        | inl allowed ↦
            let (wire, grace) = may_claim_rule settings relay target c.created_at now allowed in
            let named = sym (mac_for-target relay target now c candidate found ∙ rw allowed refl) in
            (target, found, wire, grace, claimable-unexpired relay now c candidate, named ∙ h, refl)
      ]
    ]
  ]

  claimed-free :
      (relay : Machine) (now : Instant) (c : Command) (commands : List Command)
      → mac_for settings machines relay now c ≡ none
      → claimed settings machines relay now (c ∷ commands)
        ≡ claimed settings machines relay now commands
  unfolding claimed
  claimed-free relay now c commands free = rw (free, claimed) refl

  claimed-took :
      (relay : Machine) (now : Instant) (c : Command) (commands : List Command) (mac : List ℕ)
      → mac_for settings machines relay now c ≡ some mac
      → claimed settings machines relay now (c ∷ commands)
        ≡ record { command = claimed_row relay now c; target_mac = mac }
          ∷ claimed settings machines relay now commands
  unfolding claimed
  claimed-took relay now c commands mac took = rw (took, claimed) refl

  claimed-congr :
      (relay : Machine) (now : Instant) (c : Command) (xs ys : List Command)
      → claimed settings machines relay now xs ≡ claimed settings machines relay now ys
      → claimed settings machines relay now (c ∷ xs) ≡ claimed settings machines relay now (c ∷ ys)
  claimed-congr relay now c xs ys same =
      elim (Option-cases (mac_for settings machines relay now c)) [
        | inl free ↦
            claimed-free relay now c xs free ∙ same ∙ sym (claimed-free relay now c ys free)
        | inr (mac, took) ↦
            claimed-took relay now c xs mac took
            ∙ ap (λ rest. record { command = claimed_row relay now c; target_mac = mac } ∷ rest)
                same
            ∙ sym (claimed-took relay now c ys mac took)
      ]

  -- Whichever poste contacts the server next, and whenever, is handed what it would be if the wakes
  -- that the first poste took were not in the table: no wake is handed out twice.
  pub claimed-once :
      (relay relay' : Machine) (now now' : Instant) (commands : List Command)
      → claimed settings machines relay' now' (claim_wakes settings machines relay now commands).1
        ≡ claimed settings machines relay' now'
            (select (λ c. is_null (mac_for settings machines relay now c)) commands)
  unfolding claim_wakes claim_row
  claimed-once relay relay' now now' [] = refl
  claimed-once relay relay' now now' (c ∷ commands) =
      let rest = claimed-once relay relay' now now' commands in
      elim (Option-cases (mac_for settings machines relay now c)) [
        | inl free ↦ rw free (claimed-congr relay' now' c _ _ rest)
        | inr (mac, took) ↦ rw took (
            claimed-free relay' now' (claimed_row relay now c) _ (taken relay relay' now now' c)
            ∙ rest)
      ]

  -- Every wake handed to a poste is rightful: its target is a known machine on the poste's wire, on
  -- its subnet or queued for the grace at least; the wake has not expired; the address named is the
  -- target's own in canonical form; and the row names the poste as its relay.
  pub claimed-AreRightful :
      (relay : Machine) (now : Instant) (commands : List Command)
      → All (IsRightful relay now) (claimed settings machines relay now commands)
  unfolding claimed
  claimed-AreRightful relay now [] = tt
  claimed-AreRightful relay now (c ∷ commands) =
      elim (Option-cases (mac_for settings machines relay now c)) [
        | inl free ↦
            subst (All (IsRightful relay now)) (sym (claimed-free relay now c commands free))
              (claimed-AreRightful relay now commands)
        | inr (mac, took) ↦
            subst (All (IsRightful relay now)) (sym (claimed-took relay now c commands mac took))
              (handed relay now c mac took, claimed-AreRightful relay now commands)
      ]
