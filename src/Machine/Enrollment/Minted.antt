-- ===== src/Machine/Enrollment/Minted.antt =====
-- What the token of an enrolment is good for.
use natimai_tiai.Prelude.{
  ℕ, ◌≡◌, refl, Bool, false, ◌&&◌, ◌||◌, not, Option, none, some, String, List, arith, Option-cases,
  inl, inr, ◌++◌, ◌∷◌, [], if_elim, ap, ◌∙◌, ◌==◌, string_eq, is_not_null, ==_refl,
}
use natimai_tiai.Prelude.Time.{Instant}
use natimai_tiai.Machine.{Machine, new_machine}
use natimai_tiai.Machine.TokenRotation.{reset_rotation, is_token_of}
use natimai_tiai.Machine.Fingerprint.{trustworthy_smbios_uuid, store_fingerprint, Fingerprint}
use natimai_tiai.Machine.Enrollment.{
  EnrollRequest, EnrollOutcome, enrolled, enrollment_revoked, approval_required, Registry,
  machine_by_uuid, put_machine, anchor_moved, shares_anchor, enrolled_row, reported, enroll_new,
  enroll_known, enroll,
}
use natimai_tiai.Machine.Enrollment.Takeover.{found-uuid, by_uuid-put, by_uuid-append}

found_new :
    (machines : List Machine) (u : String) (n : Machine)
    → machine_by_uuid machines u ≡ none
    → n.machine_uuid ≡ u
    → machine_by_uuid (machines ++ n ∷ []) u ≡ some n
found_new machines u n absent p =
    by_uuid-append n machines u ∙ rw absent (rw p (rw (==_refl u) refl))

found_put :
    (machines : List Machine) (u : String) (m n : Machine)
    → machine_by_uuid machines u ≡ some m
    → n.machine_uuid ≡ m.machine_uuid
    → machine_by_uuid (put_machine n machines) u ≡ some n
found_put machines u m n found p =
    let same = ap (λ x. x == u) p ∙ found-uuid machines u m found in
    by_uuid-put n machines u ∙ rw found (rw same refl)

module _ (hash_token : String → String) where
  -- A request with a token passes as a poste: the row is one of the token, and is not revoked.
  abbrev pub accepts : Option Machine → String → Bool
  accepts none t = false
  accepts (some m) t = not m.token_revoked && is_token_of hash_token t m

abbrev token_of : EnrollOutcome → String → String
token_of (enrolled i t) d = t
token_of enrollment_revoked d = d
token_of approval_required d = d

module _ (hash_token : String → String) (normalized lower : String → String)
    (show_id : ℕ → String) where
  row_accepts :
      (r : EnrollRequest) (fp : Fingerprint) (suspicious : Bool) (now : Instant) (token : String)
      (m : Machine) (t : String)
      → m.token_revoked ≡ false
      → accepts hash_token
          (some (enrolled_row hash_token normalized lower show_id r fp suspicious now token m))
          t
        ≡ (hash_token token == hash_token t)
  unfolding enrolled_row reset_rotation store_fingerprint is_token_of
  row_accepts r fp suspicious now token m t live = ground (arith, live)

  row_uuid :
      (r : EnrollRequest) (fp : Fingerprint) (suspicious : Bool) (now : Instant) (token : String)
      (m : Machine)
      → (enrolled_row hash_token normalized lower show_id r fp suspicious now token m).machine_uuid
        ≡ m.machine_uuid
  unfolding enrolled_row reset_rotation store_fingerprint
  row_uuid r fp suspicious now token m = refl

  new_minted :
      (r : EnrollRequest) (now : Instant) (fresh : ℕ) (token : String) (db : Registry) (i : ℕ)
      (t t' : String)
      → machine_by_uuid db.machines r.machine_uuid ≡ none
      → (enroll_new hash_token normalized lower show_id r now fresh token db).0 ≡ enrolled i t
      → accepts hash_token
          (machine_by_uuid
            (enroll_new hash_token normalized lower show_id r now fresh token db).1.machines
            r.machine_uuid)
          t'
        ≡ (hash_token t == hash_token t')
  unfolding enroll_new
  new_minted r now fresh token db i t t' absent minted =
      let fp = reported r in
      let suspicious =
        shares_anchor hash_token normalized lower show_id db.machines r.machine_uuid
          (trustworthy_smbios_uuid normalized fp.smbios_uuid) in
      let n0 = new_machine fresh r.machine_uuid now in
      let n = enrolled_row hash_token normalized lower show_id r fp suspicious now token n0 in
      ap (λ o. accepts hash_token o t')
        (found_new db.machines r.machine_uuid n absent (row_uuid r fp suspicious now token n0))
      ∙ row_accepts r fp suspicious now token n0 t' refl
      ∙ ap (λ o. hash_token (token_of o t) == hash_token t') minted

  known_minted :
      (b : Bool) (r : EnrollRequest) (now : Instant) (ip : String) (token : String) (db : Registry)
      (m : Machine) (i : ℕ) (t t' : String)
      → machine_by_uuid db.machines r.machine_uuid ≡ some m
      → (enroll_known hash_token normalized lower show_id b r now ip token db m).0 ≡ enrolled i t
      → accepts hash_token
          (machine_by_uuid
            (enroll_known hash_token normalized lower show_id b r now ip token db m).1.machines
            r.machine_uuid)
          t'
        ≡ (hash_token t == hash_token t')
  unfolding enroll_known
  known_minted b r now ip token db m i t t' found =
      let fp = reported r in
      let suspicious =
        anchor_moved hash_token normalized lower show_id m fp
        || shares_anchor hash_token normalized lower show_id db.machines r.machine_uuid
            (trustworthy_smbios_uuid normalized fp.smbios_uuid) in
      let n = enrolled_row hash_token normalized lower show_id r fp suspicious now token m in
      let P = (λ (o : EnrollOutcome × Registry).
        o.0 ≡ enrolled i t
        → accepts hash_token (machine_by_uuid o.1.machines r.machine_uuid) t'
          ≡ (hash_token t == hash_token t')) in
      if_elim P m.token_revoked _ _ (λ _ refused. cc)
        (λ live.
          if_elim P (is_not_null m.token_hash && b) _ _ (λ _ refused. cc)
            (λ _ minted.
              ap (λ o. accepts hash_token o t')
                (found_put db.machines r.machine_uuid m n found
                  (row_uuid r fp suspicious now token m))
              ∙ row_accepts r fp suspicious now token m t' live
              ∙ ap (λ o. hash_token (token_of o t) == hash_token t') minted))

  -- The token that an enrolment answers with is the poste's one token from then on: a request for
  -- that poste passes with it, and with no other but one of the same digest.
  pub enroll-minted :
      (b : Bool) (r : EnrollRequest) (now : Instant) (ip : String) (fresh : ℕ) (token : String)
      (db : Registry) (i : ℕ) (t t' : String)
      → (enroll hash_token normalized lower show_id b r now ip fresh token db).0 ≡ enrolled i t
      → accepts hash_token
          (machine_by_uuid
            (enroll hash_token normalized lower show_id b r now ip fresh token db).1.machines
            r.machine_uuid)
          t'
        ≡ (hash_token t == hash_token t')
  unfolding enroll
  enroll-minted b r now ip fresh token db i t t' =
      elim (Option-cases (machine_by_uuid db.machines r.machine_uuid)) [
        | inl absent ↦
            rw (absent, enroll) (λ minted. new_minted r now fresh token db i t t' absent minted)
        | inr (m, found) ↦ rw (found, enroll) (known_minted b r now ip token db m i t t' found)
      ]
