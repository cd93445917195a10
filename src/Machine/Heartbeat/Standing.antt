-- ===== src/Machine/Heartbeat/Standing.antt =====
-- What stands of a poste through its heartbeats.
use natimai_tiai.Prelude.{ℕ, Bool, not, Option, String, is_not_null}
use mathlib.Core.Option.{map as option_map}
use natimai_tiai.Wol.Packet.{normalize_mac}
use natimai_tiai.Wol.Address.{to_text}
use natimai_tiai.Machine.{Machine}
use natimai_tiai.Machine.Status.{compute_is_up_to_date, verdict_moved}
use natimai_tiai.Machine.Fingerprint.{Fingerprint}
use natimai_tiai.Machine.Heartbeat.{
  HeartbeatRequest, with_identity, with_defender, with_av_product, with_verdict, with_session,
}

-- The stored verdict is the one that the stored columns give.
abbrev pub is_settled : ℕ → Machine → Bool
is_settled max_age_days m =
    not (verdict_moved (compute_is_up_to_date max_age_days m) m.is_up_to_date)

-- What a report does not lower: the flag of an identity to verify, and the address to wake
abbrev pub standing : Machine → Bool × Option String
standing m = (m.needs_verification, m.mac_address)

-- An address that a magic packet can be made for
abbrev pub has_address : Option String → Bool
has_address o = is_not_null (normalize_mac (option_map to_text o))

module _ (normalized : String → String) where
  -- The row before the fingerprint
  abbrev told : ℕ → HeartbeatRequest → Machine → Machine
  told k r m = with_session r.session (
      with_verdict k r
        (with_av_product r.av_product (with_defender r.defender (with_identity r m))))
