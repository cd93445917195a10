-- ===== src/Command/Lifecycle/Steps.antt =====
-- Each step of a row follows the one before, and so does every row reached.
use natimai_tiai.Prelude.{
  ℕ, ◌≡◌, ◌≤◌, refl, true, false, not, Option, none, some, String, List, arith, is_not_null,
  Bool-cases, inl, inr, ap, ◌&&◌, sym, ◌∙◌, ◌==◌, nat_eq, subst, ◌⊎◌,
}
use natimai_tiai.Prelude.Time.{Instant}
use natimai_tiai.Machine.{Machine}
use natimai_tiai.Command.{
  Command, CommandStatus, delivered, succeeded, failed, expired, is_terminal, is_reportable,
}
use natimai_tiai.Command.Queue.{is_stale, expire_one}
use natimai_tiai.Command.Result.{Report, report, started_row, verdict_row, is_running, is_relayed}
use natimai_tiai.Command.Delivery.{is_due, deliver_row, is_orphan, serve_row}
use natimai_tiai.Wol.Relay.{Settings}
use natimai_tiai.Wol.Relay.Claims.{
  mac_for, is_claimable, claimed_row, claim_row, is_moot, close_row,
}
use natimai_tiai.Command.Lifecycle.{
  Step, swept, served, claimed, woken, reported, Reach, here, then_step, phase, stamped, IsStamped,
  Follows,
}

follows_refl : (c : Command) → Follows c c
unfolding Follows
follows_refl c = (omega arith, refl, refl, refl, refl, refl, λ h. h)

follows_trans : (c d e : Command) → Follows c d → Follows d e → Follows c e
unfolding Follows
follows_trans c d e (p, i, m, t, x, k, s) (p', i', m', t', x', k', s') =
    (omega arith, i' ∙ i, m' ∙ m, t' ∙ t, x' ∙ x, k' ∙ k, λ h. s' (s h))

moved :
    (c d : Command)
    → phase c.status ≤ phase d.status
    → (d.id ≡ c.id)
      × (d.machine_id ≡ c.machine_id)
      × (d.type ≡ c.type)
      × (d.expires_at ≡ c.expires_at)
      × (d.package_id ≡ c.package_id)
    → stamped d.status d.delivered_at d.started_at d.finished_at ≡ true
    → Follows c d
unfolding Follows IsStamped
moved c d p (i, m, t, x, k) s = (p, i, m, t, x, k, λ h. s)

at_most_terminal : (s : CommandStatus) → phase s ≤ 3
at_most_terminal s = ground arith

expire_one-Follows : (o : Option ℕ) (now : Instant) (c : Command) → Follows c (expire_one o now c)
unfolding expire_one stamped
expire_one-Follows o now c = elim (Bool-cases (is_stale o now c)) [
  | inl stale ↦ rw stale (
      moved c (record c { status = expired }) (at_most_terminal c.status)
        (refl, refl, refl, refl, refl) refl)
  | inr fresh ↦ rw fresh (follows_refl c)
]

due-phase : (m : Machine) (now : Instant) (c : Command) → is_due m now c ≡ true → phase c.status ≡ 0
unfolding is_due
due-phase m now c due = ground arith

deliver_row-Follows : (m : Machine) (now : Instant) (c : Command) → Follows c (deliver_row m now c)
unfolding deliver_row stamped
deliver_row-Follows m now c = elim (Bool-cases (is_due m now c)) [
  | inl due ↦ rw due (
      moved c (record c { status = delivered; delivered_at = some now })
        (omega (arith, due-phase m now c due)) (refl, refl, refl, refl, refl) refl)
  | inr waits ↦ rw waits (follows_refl c)
]

serve_row-Follows :
    (deliveries : List ℕ) (m : Machine) (now : Instant) (c : Command)
    → Follows c (serve_row deliveries m now c)
unfolding serve_row stamped
serve_row-Follows deliveries m now c =
    elim (Bool-cases (is_due m now c && is_orphan deliveries c)) [
      | inl lost ↦ rw lost (
          follows_trans c (deliver_row m now c) _ (deliver_row-Follows m now c) (
            moved (deliver_row m now c)
              (record (deliver_row m now c) {
                status = failed;
                error = some "Paquet supprimé avant l'exécution";
                finished_at = some now;
              })
              (at_most_terminal (deliver_row m now c).status) (refl, refl, refl, refl, refl) refl))
      | inr kept ↦ rw kept (deliver_row-Follows m now c)
    ]

claim-phase :
    (settings : Settings) (machines : List Machine) (relay : Machine) (now : Instant) (c : Command)
    → is_not_null (mac_for settings machines relay now c) ≡ true
    → phase c.status ≡ 0
unfolding mac_for is_claimable
claim-phase settings machines relay now c h = ground arith

claim_row-Follows :
    (settings : Settings) (machines : List Machine) (relay : Machine) (now : Instant) (c : Command)
    → Follows c (claim_row settings machines relay now c)
unfolding claim_row claimed_row stamped
claim_row-Follows settings machines relay now c =
    elim (Bool-cases (is_not_null (mac_for settings machines relay now c))) [
      | inl took ↦ rw took (
          moved c (claimed_row relay now c)
            (omega (arith, claim-phase settings machines relay now c took))
            (refl, refl, refl, refl, refl) refl)
      | inr free ↦ rw free (follows_refl c)
    ]

close_row-Follows :
    (back_online : String) (m : Machine) (now : Instant) (c : Command)
    → Follows c (close_row back_online m now c)
unfolding close_row stamped
close_row-Follows back_online m now c = elim (Bool-cases (is_moot m c)) [
  | inl moot ↦ rw moot (
      moved c
        (record c { status = succeeded; finished_at = some now; result_output = some back_online })
        (at_most_terminal c.status) (refl, refl, refl, refl, refl) refl)
  | inr other ↦ rw other (follows_refl c)
]

some_path {ℓ} : {A : Type ℓ} {a b : A} → some a ≡ some b → a ≡ b
some_path {a = a} e = ap (λ o. elim o [ none ↦ a | some x ↦ x ]) e

none_path {ℓ} : {A : Type ℓ} {b : A} → none ≡ some b → ⊥
none_path e = cc

open_phase : (s : CommandStatus) → is_terminal s ≡ false → phase s ≤ 2
open_phase s h = ground arith

verdict-phase : (s : CommandStatus) → is_reportable s ≡ true → is_running s ≡ false → phase s ≡ 3
verdict-phase s ok closing = ground arith

verdict-stamped :
    (s : CommandStatus) (d t : Option Instant) (now : Instant)
    → is_reportable s ≡ true
    → is_running s ≡ false
    → stamped s d t (some now) ≡ true
unfolding stamped
verdict-stamped s d t now ok closing = ground arith

module _ (show_id : ℕ → String) (m : Machine) (p : Report) (now : Instant) (c : Command) where
  started-Follows : is_terminal c.status ≡ false → Follows c (started_row show_id now c)
  unfolding started_row stamped
  started-Follows live =
      moved c (started_row show_id now c) (open_phase c.status live) (refl, refl, refl, refl, refl)
        refl

  verdict-Follows :
      is_reportable p.status ≡ true
      → is_running p.status ≡ false
      → Follows c (verdict_row show_id m p now c)
  unfolding verdict_row
  verdict-Follows ok closing =
      moved c (verdict_row show_id m p now c)
        (omega (arith, at_most_terminal c.status, verdict-phase p.status ok closing))
        (refl, refl, refl, refl, refl)
        (verdict-stamped p.status c.delivered_at c.started_at now ok closing)

  -- The three ends of the handler.
  report_cases :
      (report show_id m p now c ≡ none)
      ⊎ ((is_terminal c.status ≡ false)
          × (report show_id m p now c ≡ some (started_row show_id now c)))
      ⊎ ((is_running p.status ≡ false)
          × (report show_id m p now c ≡ some (verdict_row show_id m p now c)))
  unfolding report
  report_cases = elim (Bool-cases (not (c.machine_id == m.id) && not (is_relayed show_id m c))) [
    | inl stranger ↦ inl (rw stranger refl)
    | inr known ↦ elim (Bool-cases (is_relayed show_id m c && is_terminal c.status)) [
      | inl late ↦ inl (rw known (rw late refl))
      | inr heard ↦ elim (Bool-cases (is_running p.status)) [
        | inr closing ↦ inr (inr (closing, rw known (rw heard (rw closing refl))))
        | inl starting ↦ elim (Bool-cases (is_terminal c.status)) [
          | inl over ↦ inl (rw known (rw heard (rw starting (rw over refl))))
          | inr live ↦ inr (inl (live, rw known (rw heard (rw starting (rw live refl)))))
        ]
      ]
    ]
  ]

  report-Follows :
      (c' : Command)
      → is_reportable p.status ≡ true
      → report show_id m p now c ≡ some c'
      → Follows c c'
  report-Follows c' ok e = elim report_cases [
    | inl ignored ↦ absurd (none_path (sym ignored ∙ e))
    | inr (inl (live, same)) ↦ subst (Follows c) (some_path (sym same ∙ e)) (started-Follows live)
    | inr (inr (closing, same)) ↦
        subst (Follows c) (some_path (sym same ∙ e)) (verdict-Follows ok closing)
  ]

step-Follows : (show_id : ℕ → String) (c d : Command) → Step show_id c d → Follows c d
step-Follows show_id c _ (swept o now _) = expire_one-Follows o now c
step-Follows show_id c _ (served deliveries m now _) = serve_row-Follows deliveries m now c
step-Follows show_id c _ (claimed settings machines relay now _) =
    claim_row-Follows settings machines relay now c
step-Follows show_id c _ (woken back_online m now _) = close_row-Follows back_online m now c
step-Follows show_id c d (reported m p now _ _ ok e) = report-Follows show_id m p now c d ok e

reach-Follows : (show_id : ℕ → String) (c d : Command) → Reach show_id c d → Follows c d
reach-Follows show_id c _ (here _) = follows_refl c
reach-Follows show_id c _ (then_step _ d e before last) =
    follows_trans c d e (reach-Follows show_id c d before) (step-Follows show_id d e last)

-- From a row that bears the stamps its status stands for, whatever the sweeps, heartbeats, claims,
-- wakes and reports do to it, in any order and number: its phase never goes back, so that a closed
-- row stays closed; it stays the same order (identifier, machine, type, expiry and package); and it
-- bears the stamps that its status stands for.
pub reached_row :
    (show_id : ℕ → String) (c d : Command)
    → IsStamped c
    → Reach show_id c d
    → (phase c.status ≤ phase d.status)
      × (d.id ≡ c.id)
      × (d.machine_id ≡ c.machine_id)
      × (d.type ≡ c.type)
      × (d.expires_at ≡ c.expires_at)
      × (d.package_id ≡ c.package_id)
      × IsStamped d
unfolding Follows
reached_row show_id c d h r =
    let (p, i, m, t, x, k, s) = reach-Follows show_id c d r in (p, i, m, t, x, k, s h)
