-- ===== src/Wol/Relay/Queueing.antt =====
-- What the queueing of a wake leaves in the queue.
use natimai_tiai.Prelude.{
  ℕ, ◌≤◌, ◌<◌, ◌≡◌, refl, Bool, true, false, not, if◌then◌else◌, Option, none, some, String, List,
  [], ◌∷◌, ◌++◌, select, count_where, count_where-append, arith, Option-cases, Bool-cases, inl, inr,
  ltb, leb, ◌∙◌, subst, sym, ◌||◌, ◌==◌, nat_eq, max, ap, ==_refl, ◌⊎◌,
}
use mathlib.Core.Option.{map as option_map}
use natimai_tiai.Prelude.Time.{Instant}
use natimai_tiai.Machine.{Machine}
use natimai_tiai.Command.{Command}
use natimai_tiai.Wol.Packet.{normalize_mac}
use natimai_tiai.Wol.Address.{to_text}
use natimai_tiai.Wol.Relay.{
  Settings, peer_clause, count_online_peers, is_open_wake, latest, open_wake_for, WakeDetail,
  WakeOutcome, is_delivered, no_mac, no_site, no_peer, already_relayed, already_waiting, queued,
  closed_row, closed, wake_row, queue_relayed_wake,
}

two_ways {ℓ} : {A : Type ℓ} {a : A} {o : Option A} → o ≡ none → o ≡ some a → ⊥
two_ways n s = cc

-- The row that is the latest so far, against those behind it.
latest-some : (c : Command) (cs : List Command) → (d : Command) × (latest (c ∷ cs) ≡ some d)
unfolding latest
latest-some c cs = elim (Option-cases (latest cs)) [
  | inl alone ↦ (c, rw alone refl)
  | inr (d, later) ↦ elim (Bool-cases (leb d.created_at c.created_at)) [
    | inl newer ↦ (c, rw later (rw newer refl))
    | inr older ↦ (d, rw later (rw older refl))
  ]
]

latest-none : (cs : List Command) → latest cs ≡ none → cs ≡ []
latest-none [] h = refl
latest-none (c ∷ cs) h = let (d, e) = latest-some c cs in absurd (two_ways h e)

latest-nil : latest [] ≡ none
unfolding latest
latest-nil = refl

count-select : (p : Command → Bool) (cs : List Command) → select p cs ≡ [] → count_where p cs ≡ 0
count-select p [] h = refl
count-select p (c ∷ cs) h = elim (Bool-cases (p c)) [
  | inl yes_ ↦ ground (arith, h)
  | inr other ↦ ground (arith, h, count-select p cs)
]

select-count : (p : Command → Bool) (cs : List Command) → count_where p cs ≡ 0 → select p cs ≡ []
select-count p [] h = refl
select-count p (c ∷ cs) h = ground (arith, select-count p cs)

-- The open wakes of a target.
abbrev pub open_wakes : Machine → Instant → List Command → ℕ
open_wakes target now = count_where (is_open_wake target now)

module _ (message : WakeDetail → String) where
  closed_row-shut :
      (target : Machine) (created_by : Option String) (now t : Instant) (fresh : ℕ) (ok : Bool)
      (detail : WakeDetail)
      → is_open_wake target t (closed_row message target created_by now fresh ok detail) ≡ false
  unfolding is_open_wake closed_row
  closed_row-shut target created_by now t fresh true detail = ground arith
  closed_row-shut target created_by now t fresh false detail = ground arith

wake_row-open :
    (settings : Settings) (target : Machine) (created_by : Option String) (now : Instant)
    (fresh : ℕ)
    → 0 < settings.wol_relay_ttl_minutes
    → is_open_wake target now (wake_row settings target created_by now fresh) ≡ true
unfolding is_open_wake wake_row
wake_row-open settings target created_by now fresh lives = ground (arith, ==_refl target.id)

found-positive :
    (commands : List Command) (target : Machine) (now : Instant) (a : Command)
    → open_wake_for commands target now ≡ some a
    → 0 < open_wakes target now commands
unfolding open_wake_for
found-positive commands target now a found =
    elim (Bool-cases (ltb 0 (open_wakes target now commands))) [
      | inl some_open ↦ ground arith
      | inr none_open ↦ absurd (
          two_ways
            (ap latest (select-count (is_open_wake target now) commands (ground arith))
              ∙ latest-nil)
            found)
    ]

missing-zero :
    (commands : List Command) (target : Machine) (now : Instant)
    → open_wake_for commands target now ≡ none
    → open_wakes target now commands ≡ 0
unfolding open_wake_for
missing-zero commands target now missing =
    count-select (is_open_wake target now) commands
      (latest-none (select (is_open_wake target now) commands) missing)

-- The three ends of the function.
module _ (message : WakeDetail → String) (settings : Settings) (machines : List Machine)
    (commands : List Command) (target : Machine) (created_by : Option String) (now : Instant)
    (fresh : ℕ) where
  IsEnd : WakeOutcome × List Command → Type 0
  IsEnd q =
      ((detail : WakeDetail) × (q
          ≡ closed message commands target created_by now fresh false detail))
      ⊎ ((o : WakeOutcome) × (a : Command) × (q ≡ (o, commands))
          × (open_wake_for commands target now ≡ some a))
      ⊎ ((o : WakeOutcome) × (q
            ≡ (o, commands ++ wake_row settings target created_by now fresh ∷ []))
          × (open_wake_for commands target now ≡ none))

  abbrev told : Command → WakeOutcome
  told a = record {
    ok = true;
    detail =
        if is_delivered a.status
        then already_relayed a.created_at
        else already_waiting a.created_at;
  }

  abbrev promised : WakeOutcome
  promised = record {
    ok = true;
    detail =
        queued target (count_online_peers settings machines target now)
          settings.wol_relay_ttl_minutes;
  }

  queue_cases :
      IsEnd (queue_relayed_wake message settings machines commands target created_by now fresh)
  unfolding queue_relayed_wake IsEnd
  queue_cases = elim (Option-cases (normalize_mac (option_map to_text target.mac_address))) [
    | inl nameless ↦ inl (no_mac, rw (nameless, queue_relayed_wake) refl)
    | inr (mac, named) ↦ elim (Option-cases (peer_clause target)) [
      | inl alone ↦ inl (no_site, rw (named, queue_relayed_wake) (rw alone refl))
      | inr (clause, placed) ↦ elim (Option-cases (open_wake_for commands target now)) [
        | inr (a, found) ↦
            inr (inl (told a, a, rw (named, queue_relayed_wake) (rw placed (rw found refl)), found))
        | inl missing ↦ elim (Bool-cases (count_online_peers settings machines target now == 0)) [
          | inl dark ↦ inl (
            no_peer target,
            rw (named, queue_relayed_wake) (rw placed (rw missing (rw dark refl))),
          )
          | inr lit ↦ inr (
              inr (
                promised,
                rw (named, queue_relayed_wake) (rw placed (rw missing (rw lit refl))),
                missing,
              ))
        ]
      ]
    ]
  ]

  -- What the queue holds after one of the ends.
  Fits : WakeOutcome × List Command → Type 0
  Fits (o, after) =
      ((not o.ok || ltb 0 (open_wakes target now after)) ≡ true)
      × (open_wakes target now after ≤ max 1 (open_wakes target now commands))

  end-Fits :
      (q : WakeOutcome × List Command) → 0 < settings.wol_relay_ttl_minutes → IsEnd q → Fits q
  unfolding IsEnd Fits closed
  end-Fits q lives (inl (detail, same)) = subst Fits (sym same) (
    refl,
    ground (
      arith,
      count_where-append (is_open_wake target now) commands
          (closed_row message target created_by now fresh false detail ∷ []),
      closed_row-shut message target created_by now now fresh false detail,
    ),
  )
  end-Fits q lives (inr (inl (o, a, same, found))) =
      subst Fits (sym same)
        (ground (arith, found-positive commands target now a found), omega arith)
  end-Fits q lives (inr (inr (o, same, missing))) = subst Fits (sym same) (
    ground (
      arith,
      count_where-append (is_open_wake target now) commands
          (wake_row settings target created_by now fresh ∷ []),
      wake_row-open settings target created_by now fresh lives,
    ),
    ground (
      arith,
      count_where-append (is_open_wake target now) commands
          (wake_row settings target created_by now fresh ∷ []),
      wake_row-open settings target created_by now fresh lives,
      missing-zero commands target now missing,
    ),
  )

  -- With a positive time to live: where the answer promises a wake, one is open for the target, and
  -- the target has at most one open wake, or no more than it had.
  pub queue_relayed_wake-single :
      0 < settings.wol_relay_ttl_minutes
      → let (o, after) =
          queue_relayed_wake message settings machines commands target created_by now fresh in
        ((not o.ok || ltb 0 (open_wakes target now after)) ≡ true)
        × (open_wakes target now after ≤ max 1 (open_wakes target now commands))
  queue_relayed_wake-single lives = unfold Fits in end-Fits _ lives queue_cases
