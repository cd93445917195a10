-- ===== src/Wol/Relay/Claims/Closing.antt =====
-- The end of a poste's wakes when it contacts the server.
use natimai_tiai.Prelude.{
  ◌≡◌, refl, some, Bool, true, false, ◌&&◌, not, String, List, [], ◌∷◌, select, arith, Bool-cases,
  inl, inr, ◌==◌, nat_eq, length,
}
use natimai_tiai.Prelude.Time.{Instant}
use natimai_tiai.Machine.{Machine}
use natimai_tiai.Command.{Command, is_wake, is_waiting, succeeded}
use natimai_tiai.Wol.Relay.Claims.{is_moot, close_row, close_wakes_for_awake_machine}

module _ (back_online : String) (machine : Machine) where
  -- A wake of this poste that was queued or is out with a relay
  abbrev pub waits : Command → Bool
  waits c = c.machine_id == machine.id && is_wake c.type && is_waiting c.status

  settled : (now : Instant) (c : Command) → waits (close_row back_online machine now c) ≡ false
  unfolding close_row is_moot
  settled now c = elim (Bool-cases (waits c)) [
    | inl moot ↦ rw moot (ground arith)
    | inr other ↦ rw other other
  ]

  closed-others :
      (now : Instant) (c : Command) → waits c ≡ false → close_row back_online machine now c ≡ c
  unfolding close_row is_moot
  closed-others now c other = rw other refl

  -- A row that is no wake of this poste.
  pub is_foreign : Command → Bool
  is_foreign c = not (c.machine_id == machine.id && is_wake c.type)

  foreign_kept :
      (now : Instant) (c : Command)
      → is_foreign (close_row back_online machine now c) ≡ is_foreign c
  unfolding close_row is_moot is_foreign
  foreign_kept now c = elim (Bool-cases (waits c)) [
    | inl moot ↦ rw moot refl
    | inr other ↦ rw other refl
  ]

  foreign_apart : (c : Command) → waits c ≡ true → is_foreign c ≡ false
  unfolding is_foreign
  foreign_apart c moot = ground arith

  -- What becomes of a row: a wake of the poste that waited has succeeded now, and but for the text
  -- of its result is otherwise the command that it was; any other row, a wake of the poste that had
  -- ended included, is untouched.
  abbrev pub ClosedBy : Bool → Instant → Command → Command → Type 0
  ClosedBy false now c c' = c' ≡ c
  ClosedBy true now c c' =
      (c'.status ≡ succeeded)
      × (c'.finished_at ≡ some now)
      × (c' ≡ record c {
        status = c'.status;
        finished_at = c'.finished_at;
        result_output = c'.result_output;
      })

  abbrev pub Closed : Instant → Command → Command → Type 0
  Closed now c c' = ClosedBy (waits c) now c c'

  -- The rows of two tables, one by one
  abbrev pub AllClosed : Instant → List Command → List Command → Type 0
  AllClosed now [] [] = Unit {0}
  AllClosed now [] (c' ∷ after) = ⊥
  AllClosed now (c ∷ commands) [] = ⊥
  AllClosed now (c ∷ commands) (c' ∷ after) = Closed now c c' × AllClosed now commands after

  closes : (now : Instant) (c : Command) → Closed now c (close_row back_online machine now c)
  unfolding close_row is_moot
  closes now c = elim (Bool-cases (waits c)) [
    | inl moot ↦ rw moot (refl, refl, refl)
    | inr other ↦ rw other refl
  ]

  -- When a poste's wakes are closed at its contact, none of them waits any more: each that waited
  -- has succeeded at that instant and is otherwise as it was, but for the text of its result, and
  -- every other row of the table, the poste's ended wakes included, is there as it was, in its order;
  -- no row comes or goes.
  pub close_wakes-exactly :
      (now : Instant) (commands : List Command)
      → let after = (close_wakes_for_awake_machine back_online machine now commands).0 in
        (select (waits) after ≡ [])
        × AllClosed now commands after
        × (select is_foreign after ≡ select is_foreign commands)
        × (length after ≡ length commands)
  unfolding close_wakes_for_awake_machine
  close_wakes-exactly now [] = (refl, tt, refl, refl)
  close_wakes-exactly now (c ∷ commands) =
      let (gone, each, kept, size) = close_wakes-exactly now commands in
      (
        rw (settled now c) gone,
        (closes now c, each),
        elim (Bool-cases (waits c)) [
          | inl moot ↦ ground (arith, kept, foreign_apart c moot, foreign_kept now c)
          | inr other ↦ rw (closed-others now c other) (ground (arith, kept))
        ],
        omega (arith, size),
      )
