-- ===== src/Machine/Enrollment/Takeover.antt =====
-- The fleet secret and the identities of the table: how a row is found after a write, and what
-- becomes of the credentials of a poste that has some.
use natimai_tiai.Prelude.{
  ℕ, ◌≡◌, refl, Bool, true, false, ◌&&◌, ◌||◌, Option, none, some, String, List, [], ◌∷◌, ◌++◌,
  arith, Bool-cases, if_elim, some_injective, Option-cases, inl, inr, ap, sym, ◌∙◌, subst, ◌==◌,
  string_eq, if◌then◌else◌, is_not_null, ==_sound, ==_same, ==_apart,
}
use natimai_tiai.Prelude.Time.{Instant}
use natimai_tiai.Machine.{Machine}
use natimai_tiai.Machine.TokenRotation.{reset_rotation}
use natimai_tiai.Machine.Fingerprint.{trustworthy_smbios_uuid, store_fingerprint}
use natimai_tiai.Machine.Enrollment.{
  EnrollRequest, EnrollOutcome, Registry, machine_by_uuid, put_machine, held_row, anchor_moved,
  shares_anchor, enrolled_row, reported, enroll_new, enroll_known, enroll,
}

pub found-uuid :
    (machines : List Machine) (u : String) (m : Machine)
    → machine_by_uuid machines u ≡ some m
    → (m.machine_uuid == u) ≡ true
unfolding machine_by_uuid
found-uuid [] u m h = cc
found-uuid (x ∷ machines) u m h = grind (arith, found-uuid machines u m)

pub by_uuid-put :
    (m' : Machine) (machines : List Machine) (u : String)
    → machine_by_uuid (put_machine m' machines) u ≡ (
        if (m'.machine_uuid == u) && is_not_null (machine_by_uuid machines u)
        then some m'
        else machine_by_uuid machines u)
unfolding machine_by_uuid put_machine
by_uuid-put m' [] u = ground arith
by_uuid-put m' (m ∷ machines) u = elim (Bool-cases (m.machine_uuid == m'.machine_uuid)) [
  | inl e ↦ ground (arith, e, ==_same m.machine_uuid m'.machine_uuid u e)
  | inr e ↦ elim (Bool-cases (m'.machine_uuid == u)) [
    | inl f ↦
        ground
          (arith, e, f, ==_apart m.machine_uuid m'.machine_uuid u e f, by_uuid-put m' machines u)
    | inr f ↦ ground (arith, e, f, by_uuid-put m' machines u)
  ]
]

pub by_uuid-append :
    (m' : Machine) (machines : List Machine) (u : String)
    → machine_by_uuid (machines ++ m' ∷ []) u ≡ (
        if is_not_null (machine_by_uuid machines u)
        then machine_by_uuid machines u
        else if m'.machine_uuid == u
        then some m'
        else none)
unfolding machine_by_uuid
by_uuid-append m' [] u = ground arith
by_uuid-append m' (m ∷ machines) u = ground (arith, by_uuid-append m' machines u)

vacant :
    {A : Type 0} {x y : A} (m : Machine)
    → (m.token_revoked || is_not_null m.token_hash) ≡ true
    → m.token_revoked ≡ false
    → (is_not_null m.token_hash && true) ≡ false
    → x ≡ y
vacant m held live free = ground arith

-- What a token is checked against.
abbrev pub credentials : Machine → Option String × Option String × Bool
credentials m = (m.token_hash, m.pending_token_hash, m.token_revoked)

abbrev pub credentials_of : Option Machine → Option (Option String × Option String × Bool)
credentials_of none = none
credentials_of (some m) = some (credentials m)

same_row :
    (machines : List Machine) (v u : String) (m m' : Machine)
    → machine_by_uuid machines v ≡ some m
    → machine_by_uuid machines u ≡ some m'
    → (m.machine_uuid == u) ≡ true
    → m ≡ m'
same_row machines v u m m' found row e =
    let v-u : v ≡ u =
      sym (==_sound m.machine_uuid v (found-uuid machines v m found))
      ∙ ==_sound m.machine_uuid u e in
    some_injective m m' (sym found ∙ ap (machine_by_uuid machines) v-u ∙ row)

kept_by_put :
    (machines : List Machine) (u : String) (m' n : Machine)
    → machine_by_uuid machines u ≡ some m'
    → ((n.machine_uuid == u) ≡ true → credentials n ≡ credentials m')
    → credentials_of (machine_by_uuid (put_machine n machines) u) ≡ some (credentials m')
kept_by_put machines u m' n row keeps =
    ap credentials_of (by_uuid-put n machines u) ∙ elim (Bool-cases (n.machine_uuid == u)) [
      | inl e ↦ rw (row, e) (ap some (keeps e))
      | inr e ↦ rw (row, e) refl
    ]

module _ (hash_token : String → String) (normalized lower : String → String)
    (show_id : ℕ → String) where
  known_keeps :
      (r : EnrollRequest) (now : Instant) (ip : String) (token : String) (db : Registry)
      (m : Machine) (u : String) (m' : Machine)
      → machine_by_uuid db.machines r.machine_uuid ≡ some m
      → machine_by_uuid db.machines u ≡ some m'
      → (m'.token_revoked || is_not_null m'.token_hash) ≡ true
      → credentials_of (
          machine_by_uuid
            (enroll_known hash_token normalized lower show_id true r now ip token db m).1.machines
            u)
        ≡ some (credentials m')
  unfolding enroll_known enrolled_row held_row reset_rotation store_fingerprint
  known_keeps r now ip token db m u m' found row held =
      let fp = reported r in
      let suspicious =
        anchor_moved hash_token normalized lower show_id m fp
        || shares_anchor hash_token normalized lower show_id db.machines r.machine_uuid
            (trustworthy_smbios_uuid normalized fp.smbios_uuid) in
      let n = enrolled_row hash_token normalized lower show_id r fp suspicious now token m in
      let P = (λ (o : EnrollOutcome × Registry).
        credentials_of (machine_by_uuid o.1.machines u) ≡ some (credentials m')) in
      let same_as = same_row db.machines r.machine_uuid u m m' found row in
      if_elim P m.token_revoked _ _ (λ _. ap credentials_of row)
        (λ live.
          if_elim P (is_not_null m.token_hash && true) _ _
            (λ _.
              kept_by_put db.machines u m' (held_row now ip m) row
                (λ f. ap credentials (same_as f)))
            (λ free. kept_by_put db.machines u m' n row (λ f.
              vacant m
                (subst (λ (x : Machine). (x.token_revoked || is_not_null x.token_hash) ≡ true)
                  (sym (same_as f)) held)
                live free)))

  new_keeps :
      (r : EnrollRequest) (now : Instant) (fresh : ℕ) (token : String) (db : Registry) (u : String)
      (m : Machine)
      → machine_by_uuid db.machines u ≡ some m
      → credentials_of (
          machine_by_uuid
            (enroll_new hash_token normalized lower show_id r now fresh token db).1.machines
            u)
        ≡ some (credentials m)
  unfolding enroll_new
  new_keeps r now fresh token db u m row =
      ap credentials_of (by_uuid-append _ db.machines u) ∙ rw row refl

  -- While approval is required, an enrolment leaves the credentials of every poste that holds a
  -- token, or whose token was revoked, as they were, the poste that is named in the request
  -- included.
  pub enroll-credentials :
      (r : EnrollRequest) (now : Instant) (ip : String) (fresh : ℕ) (token : String) (db : Registry)
      (u : String) (m : Machine)
      → machine_by_uuid db.machines u ≡ some m
      → (m.token_revoked || is_not_null m.token_hash) ≡ true
      → credentials_of (
          machine_by_uuid
            (enroll hash_token normalized lower show_id true r now ip fresh token db).1.machines
            u)
        ≡ some (credentials m)
  unfolding enroll
  enroll-credentials r now ip fresh token db u m row held =
      elim (Option-cases (machine_by_uuid db.machines r.machine_uuid)) [
        | inl absent ↦ rw (absent, enroll) (new_keeps r now fresh token db u m row)
        | inr (m0, found) ↦ rw (found, enroll) (known_keeps r now ip token db m0 u m found row held)
      ]
