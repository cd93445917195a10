-- ===== src/Command/Delivery/Ends.antt =====
-- Each command that an agent is due is handed out once.
use natimai_tiai.Prelude.{
  ℕ, ◌≡◌, ◌≤◌, refl, Bool, true, false, Option, some, String, List, [], ◌∷◌, map, arith, Bool-cases,
  inl, inr, nat_eq, if◌then◌else◌, ap, ◌∙◌, All,
}
use natimai_tiai.Prelude.Time.{Instant}
use natimai_tiai.Machine.{Machine}
use natimai_tiai.Command.{Command, delivered, failed, is_pending}
use natimai_tiai.Command.Queue.{is_stale, expire_one, mark_expired}
use natimai_tiai.Wol.Relay.{Settings}
use natimai_tiai.Command.Delivery.{
  is_due, deliver_row, is_orphan, serve_row, own_commands, heartbeat_commands,
}

served_status :
    (deliveries : List ℕ) (machine : Machine) (now : Instant) (c : Command)
    → is_due machine now c ≡ true
    → (serve_row deliveries machine now c).status
      ≡ (if is_orphan deliveries c then failed else delivered)
unfolding serve_row deliver_row
served_status deliveries machine now c due = elim (Bool-cases (is_orphan deliveries c)) [
  | inl orphan ↦ rw due (rw orphan refl)
  | inr kept ↦ rw due (rw kept refl)
]

status_if :
    (deliveries : List ℕ) (machine : Machine) (now : Instant) (c : Command) (b : Bool)
    → is_due machine now c ≡ true
    → is_orphan deliveries c ≡ b
    → (serve_row deliveries machine now c).status ≡ (if b then failed else delivered)
status_if deliveries machine now c b due e =
    served_status deliveries machine now c due ∙ ap (λ x. if x then failed else delivered) e

-- A sweep makes no row due.
swept-undue :
    (o : Option ℕ) (machine : Machine) (swept_at now : Instant) (c : Command)
    → is_due machine now c ≡ false
    → is_due machine now (expire_one o swept_at c) ≡ false
unfolding is_due expire_one
swept-undue o machine swept_at now c undue = elim (Bool-cases (is_stale o swept_at c)) [
  | inl stale ↦ rw stale (ground arith)
  | inr fresh ↦ rw fresh undue
]

settled-undue :
    (machine : Machine) (now : Instant) (c : Command)
    → is_pending c.status ≡ false
    → is_due machine now c ≡ false
unfolding is_due
settled-undue machine now c settled = ground arith

later-undue :
    (machine : Machine) (now now' : Instant) (c : Command)
    → now ≤ now'
    → is_due machine now c ≡ false
    → is_due machine now' c ≡ false
unfolding is_due
later-undue machine now now' c later undue = ground arith

-- A row that a heartbeat went over is not due at that instant or later.
served-undue :
    (deliveries : List ℕ) (machine : Machine) (now now' : Instant) (c : Command)
    → now ≤ now'
    → is_due machine now' (serve_row deliveries machine now c) ≡ false
unfolding serve_row deliver_row
served-undue deliveries machine now now' c later = elim (Bool-cases (is_due machine now c)) [
  | inl due ↦ elim (Bool-cases (is_orphan deliveries c)) [
    | inl orphan ↦
        settled-undue machine now' (serve_row deliveries machine now c)
          (ap is_pending (status_if deliveries machine now c true due orphan))
    | inr kept ↦
        settled-undue machine now' (serve_row deliveries machine now c)
          (ap is_pending (status_if deliveries machine now c false due kept))
  ]
  | inr waits ↦ rw waits (later-undue machine now now' c later waits)
]

module _ {ℓ} {Package : Type ℓ} (package_id : Package → ℕ) where
  nothing_due :
      (packages : List Package) (machine : Machine) (now : Instant) (commands : List Command)
      → All (λ c. is_due machine now c ≡ false) commands
      → own_commands package_id packages machine now commands ≡ []
  unfolding own_commands
  nothing_due packages machine now [] h = refl
  nothing_due packages machine now (c ∷ commands) (waits, h) =
      rw waits (nothing_due packages machine now commands h)

  each_undue :
      (deliveries : List ℕ) (machine : Machine) (o : Option ℕ) (now swept_at' now' : Instant)
      (commands : List Command)
      → now ≤ now'
      → All
          (λ c. is_due machine now' c ≡ false)
          (map (expire_one o swept_at') (map (serve_row deliveries machine now) commands))
  each_undue deliveries machine o now swept_at' now' [] later = tt
  each_undue deliveries machine o now swept_at' now' (c ∷ commands) later = (
    swept-undue o machine swept_at' now' (serve_row deliveries machine now c)
        (served-undue deliveries machine now now' c later),
    each_undue deliveries machine o now swept_at' now' commands later,
  )

  -- Without the relay mode: a second heartbeat of a poste, at the same instant or later, with no
  -- command queued between the two, is handed nothing, whatever the two sweeps' clocks and the
  -- packages then in store.
  pub heartbeat-once :
      (settings : Settings) (back_online : String) (packages packages' : List Package)
      (machines : List Machine) (machine : Machine) (swept_at now swept_at' now' : Instant)
      (commands : List Command)
      → now ≤ now'
      → (heartbeat_commands package_id false settings back_online packages' machines machine
          swept_at' now'
          (heartbeat_commands package_id false settings back_online packages machines machine
            swept_at now commands).1).0
        ≡ []
  unfolding heartbeat_commands mark_expired
  heartbeat-once settings back_online packages packages' machines machine swept_at now swept_at'
        now' commands later =
      nothing_due packages' machine now' _ (
        each_undue (map package_id packages) machine (some machine.id) now swept_at' now'
          (map (expire_one (some machine.id) swept_at) commands) later)
