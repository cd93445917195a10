-- ===== src/Package/Honest.antt =====
-- What the console shows as signed, after the requests that leave the files of packages as they are.
use natimai_tiai.Prelude.{
  ℕ, ◌≡◌, ◌⊎◌, inl, inr, refl, sym, ◌∙◌, ap, subst, Bool, true, false, none, some, String, List, [],
  ◌∷◌, ◌++◌, All, some_injective, string_eq, nat_eq, option_eq, ◌==◌, ==_sound, if◌then◌else◌,
  if_elim, Bool-cases, coalesce_to, is_null,
}
use natimai_tiai.Prelude.Time.{Instant}
use natimai_tiai.Answers.{refused, Commits, guarded, found-Commits}
use natimai_tiai.User.Edits.{Caller}
use natimai_tiai.Package.{
  PackageKind, winget, files, is_winget, Package, PackageFile, Document, document, files_of,
  refresh_manifest,
}
use natimai_tiai.Package.Signature.{
  Crypto, SignatureDocument, Verified, Verification, verify, failed, verified,
}
use natimai_tiai.Package.Body.{PackageBody, apply, with_fields, detected, coherent}
use natimai_tiai.Package.Edits.{
  Catalogue, put_package, package_by_id, new_package, create_package, update_package,
  download_manifest, attach_signature, remove_signature, retire_package, restore_package, Reply,
  signature_invalid,
}

All-append {ℓ κ} :
    {A : Type ℓ} (P : A → Type κ) (xs ys : List A) → All P xs → All P ys → All P (xs ++ ys)
All-append P [] ys a b = b
All-append P (x ∷ xs) ys a b = (a.0, All-append P xs ys a.1 b)

module _ (dumps : Document → String) (crypto : Crypto) where
  -- The columns are those of a signature that verifies over the manifest.
  abbrev pub IsSigned : Package → Type 0
  IsSigned p =
      (d : SignatureDocument) × (v : Verified) × (verify crypto (coalesce_to p.manifest "") d
        ≡ verified v)
      × (p.kind ≡ files)
      × (p.signature ≡ some v.signature)
      × (p.signature_algorithm ≡ some v.algorithm)
      × (p.signer_certificate ≡ some v.certificate)
      × (p.signer_thumbprint ≡ some v.thumbprint)
      × (p.signer_subject ≡ some v.subject)

  abbrev pub SignedOrNot : Package → Type 0
  SignedOrNot p = (p.signature ≡ none) ⊎ IsSigned p

  -- The manifest is that of the package as it stands.
  abbrev pub IsCurrent : List PackageFile → Package → Type 0
  IsCurrent rows p =
      (p.kind ≡ winget) ⊎ (p.manifest ≡ some (dumps (document p (files_of rows p.id))))

  abbrev pub IsHonest : List PackageFile → Package → Type 0
  IsHonest rows p = SignedOrNot p × IsCurrent rows p

  winget_of : (k : PackageKind) → is_winget k ≡ true → k ≡ winget
  winget_of winget e = refl
  winget_of files e = cc

  pub files_of_kind : (k : PackageKind) → is_winget k ≡ false → k ≡ files
  files_of_kind winget e = cc
  files_of_kind files e = refl

  pub refresh_manifest-IsHonest :
      (now : Instant) (rows : List PackageFile) (p : Package)
      → SignedOrNot p
      → IsHonest rows (refresh_manifest dumps now rows p).0
  unfolding refresh_manifest
  refresh_manifest-IsHonest now rows p s =
      if_elim (λ (r : Package × Bool). IsHonest rows r.0) (is_winget p.kind) _ _
        (λ w. (s, inl (winget_of p.kind w)))
        (λ f.
          if_elim (λ (r : Package × Bool). IsHonest rows r.0)
            (some (dumps (document p (files_of rows p.id))) == p.manifest) _ _
            (λ same. (s, inr (sym (==_sound _ p.manifest same))))
            (λ moved. (inl refl, inr (unfold document in refl))))

  -- A write of a row, and of the files of its package, leaves the others as they are.
  pub put_package-All :
      (old rows : List PackageFile) (p' : Package) (ps : List Package)
      → IsHonest rows p'
      → ((i : ℕ) → (i == p'.id) ≡ false → files_of rows i ≡ files_of old i)
      → All (IsHonest old) ps
      → All (IsHonest rows) (put_package p' ps)
  unfolding put_package
  put_package-All old rows p' [] h kept a = tt
  put_package-All old rows p' (p ∷ ps) h kept (a, as_) = (
    if_elim (IsHonest rows) (p.id == p'.id) p' p (λ _. h) (λ other. (a.0, current other a.1)),
    put_package-All old rows p' ps h kept as_,
  )
    where
      current : (p.id == p'.id) ≡ false → IsCurrent old p → IsCurrent rows p
      current other (inl w) = inl w
      current other (inr m) =
          inr (m ∙ ap (λ fs. some (dumps (document p fs))) (sym (kept p.id other)))

  pub refresh_manifest-id :
      (now : Instant) (rows : List PackageFile) (p : Package)
      → (refresh_manifest dumps now rows p).0.id ≡ p.id
  unfolding refresh_manifest
  refresh_manifest-id now rows p =
      if_elim (λ (r : Package × Bool). r.0.id ≡ p.id) (is_winget p.kind) _ _ (λ _. refl)
        (λ _.
          if_elim (λ (r : Package × Bool). r.0.id ≡ p.id)
            (some (dumps (document p (files_of rows p.id))) == p.manifest) _ _ (λ _. refl)
            (λ _. refl))

  pub found-All :
      (P : Package → Type 0) (ps : List Package) (i : ℕ) (p : Package)
      → package_by_id ps i ≡ some p
      → All P ps
      → P p × ((p.id == i) ≡ true)
  unfolding package_by_id
  found-All P [] i p found a = cc
  found-All P (q ∷ ps) i p found a = elim (Bool-cases (q.id == i)) [
    | inl here ↦
        let same =
          some_injective q p
            (sym (ap (λ b. if b then some q else package_by_id ps i) here) ∙ found) in
        subst (λ (r : Package). P r × ((r.id == i) ≡ true)) same (a.0, here)
    | inr later ↦
        found-All P ps i p (sym (ap (λ b. if b then some q else package_by_id ps i) later) ∙ found)
          a.1
  ]

  -- `_apply` leaves the columns of the signature.
  apply-SignedOrNot :
      (strip : String → String) (b : PackageBody) (p p' : Package)
      → apply strip b p ≡ some p'
      → SignedOrNot p
      → SignedOrNot p' × (p'.id ≡ p.id)
  unfolding apply with_fields
  apply-SignedOrNot strip b p p' e s = elim (Bool-cases (coherent (with_fields strip b p))) [
    | inl ok ↦
        let same =
          some_injective (detected (with_fields strip b p)) p'
            (sym (ap (λ t. if t then some (detected (with_fields strip b p)) else none) ok) ∙ e) in
        subst (λ (r : Package). SignedOrNot r × (r.id ≡ p.id)) same
          (if_elim (λ (r : Package). SignedOrNot r × (r.id ≡ p.id))
            (is_winget (with_fields strip b p).kind) _ _ (λ _. (s, refl)) (λ _. (s, refl)))
    | inr bad ↦ absurd (
        none-some
          (sym (ap (λ t. if t then some (detected (with_fields strip b p)) else none) bad) ∙ e))
  ]
    where
      none-some : none ≡ some p' → ⊥
      none-some h = cc

  abbrev pub IsSound : Catalogue → Type 0
  IsSound db = All (IsHonest db.files) db.packages

  -- A row written over the files as they are
  written :
      (db : Catalogue) (p' : Package)
      → IsSound db
      → IsHonest db.files p'
      → All (IsHonest db.files) (put_package p' db.packages) × (db.files ≡ db.files)
  written db p' sound h =
      (put_package-All db.files db.files p' db.packages h (λ i _. refl) sound, refl)

  module _ (strip : String → String) (texts : List String → String)
      (files_text : List (String × String × ℕ) → String) (print_id : ℕ → String)
      (permissions : List String) (c : Caller) (db : Catalogue) (sound : IsSound db) where
    -- Sound tables over the files as they were
    abbrev pub Kept : Catalogue → Type 0
    Kept db' = IsSound db' × (db'.files ≡ db.files)

    pub honest_of :
        (i : ℕ) (p : Package) → package_by_id db.packages i ≡ some p → IsHonest db.files p
    honest_of i p found = (found-All (IsHonest db.files) db.packages i p found sound).0

    pub update_package-IsSound :
        (i : ℕ) (b : PackageBody)
        → Commits Kept
            (update_package dumps strip crypto texts files_text print_id permissions c db i b)
    unfolding update_package
    update_package-IsSound i b = guarded Kept _ _ _ λ _. guarded Kept _ _ _ λ _.
        found-Commits Kept _ _ (package_by_id db.packages i) λ p found.
          found-Commits Kept _ _ (apply strip b p) λ p' applied. written db _ sound (
            refresh_manifest-IsHonest c.now db.files (record p' { updated_at = c.now })
              (apply-SignedOrNot strip b p p' applied (honest_of i p found).0).0)

    pub create_package-IsSound :
        (i : ℕ) (kind : PackageKind) (name : String) (b : PackageBody)
        → Commits Kept (
            create_package dumps strip crypto texts files_text print_id permissions c db i kind name
              b)
    unfolding create_package
    create_package-IsSound i kind name b = guarded Kept _ _ _ λ _. guarded Kept _ _ _ λ _.
        found-Commits Kept _ _
          (apply strip (record b { name = some name })
            (new_package dumps strip crypto texts files_text print_id permissions c db i kind name))
          λ p applied. (
            All-append (IsHonest db.files) db.packages _ sound (
              refresh_manifest-IsHonest c.now db.files p
                  (apply-SignedOrNot strip (record b { name = some name })
                    (new_package dumps strip crypto texts files_text print_id permissions c db i
                      kind name)
                    p applied (inl refl)).0,
              tt,
            ),
            refl,
          )

    pub download_manifest-IsSound :
        (i : ℕ)
        → Commits Kept
            (download_manifest dumps strip crypto texts files_text print_id permissions c db i)
    unfolding download_manifest
    download_manifest-IsSound i = guarded Kept _ _ _ λ _.
        found-Commits Kept _ _ (package_by_id db.packages i) λ p found. guarded Kept _ _ _ λ _.
          if_elim (Commits Kept) (is_null p.manifest) _ _
            (λ _.
              written db _ sound
                (refresh_manifest-IsHonest c.now db.files p (honest_of i p found).0))
            (λ _. (sound, refl))

    pub attach_signature-IsSound :
        (i : ℕ) (d : SignatureDocument)
        → Commits Kept
            (attach_signature dumps strip crypto texts files_text print_id permissions c db i d)
    unfolding attach_signature document
    attach_signature-IsSound i d = guarded Kept _ _ _ λ _.
        found-Commits Kept _ _ (package_by_id db.packages i) λ p found. guarded Kept _ _ _ λ kind.
          guarded Kept _ _ _ λ _. by p _ (verify crypto (coalesce_to p.manifest "") d) refl (λ v e.
            written db _ sound (
              inr (d, v, e, files_of_kind p.kind kind, refl, refl, refl, refl, refl),
              (honest_of i p found).1,
            ))
      where
        by :
            (p : Package) (k : Verified → Reply) (r : Verification)
            → verify crypto (coalesce_to p.manifest "") d ≡ r
            → ((v : Verified)
                → verify crypto (coalesce_to p.manifest "") d ≡ verified v
                → Commits Kept (k v))
            → Commits Kept
                (elim r as (λ _. Reply) [ failed e ↦ refused signature_invalid | verified v ↦ k v ])
        by p k (failed e) q h = tt
        by p k (verified v) q h = h v q

    pub remove_signature-IsSound :
        (i : ℕ)
        → Commits Kept
            (remove_signature dumps strip crypto texts files_text print_id permissions c db i)
    unfolding remove_signature document
    remove_signature-IsSound i = guarded Kept _ _ _ λ _.
        found-Commits Kept _ _ (package_by_id db.packages i)
          λ p found. written db _ sound (inl refl, (honest_of i p found).1)

    pub retire_package-IsSound :
        (i : ℕ)
        → Commits Kept
            (retire_package dumps strip crypto texts files_text print_id permissions c db i)
    unfolding retire_package document
    retire_package-IsSound i = guarded Kept _ _ _ λ _.
        found-Commits Kept _ _ (package_by_id db.packages i)
          λ p found. written db _ sound ((honest_of i p found).0, (honest_of i p found).1)

    pub restore_package-IsSound :
        (i : ℕ)
        → Commits Kept
            (restore_package dumps strip crypto texts files_text print_id permissions c db i)
    unfolding restore_package document
    restore_package-IsSound i = guarded Kept _ _ _ λ _.
        found-Commits Kept _ _ (package_by_id db.packages i)
          λ p found. written db _ sound ((honest_of i p found).0, (honest_of i p found).1)
