-- ===== src/Package/Sound.antt =====
-- The tables of packages and the store of files, after whatever is requested of them.
use natimai_tiai.Prelude.{
  ℕ, ◌≡◌, refl, sym, subst, ◌∙◌, ap, false, not, ◌&&◌, Option, none, some, String, List, [], ◌∷◌,
  select, All, string_eq, nat_eq, ◌==◌, ==_sound, if_elim,
}
use natimai_tiai.Prelude.Time.{Instant}
use natimai_tiai.Answers.{Answer, refused, committed, Commits}
use natimai_tiai.Audit.{AuditEntry}
use natimai_tiai.User.Edits.{Caller}
use natimai_tiai.Package.{
  Package, PackageFile, Document, files_of, is_winget, refresh_manifest, sha_in_use,
}
use natimai_tiai.Package.Signature.{Crypto}
use natimai_tiai.Package.Edits.{
  Catalogue, Reply, PackageError, Upload, package_not_found, file_not_found, put_package,
  package_by_id, may_write, upload_loop, remove_unreferenced, upload_files, delete_file,
}
use natimai_tiai.Package.Requests.{
  Request, creates, updates, uploads, deletes_file, downloads_manifest, signs, unsigns, retires,
  restores, handle, after,
}
use natimai_tiai.Package.Honest.{
  IsHonest, IsSound, Kept, put_package-All, found-All, refresh_manifest-IsHonest,
  refresh_manifest-id, create_package-IsSound, update_package-IsSound, download_manifest-IsSound,
  attach_signature-IsSound, remove_signature-IsSound, retire_package-IsSound,
  restore_package-IsSound,
}
use natimai_tiai.Package.Stored.{
  IsStored, Left, upload_loop-Left, files_of-without, All-select, removed-IsStored,
}

-- What holds of what is done where nothing is found, and with what is found
option_elim {ℓ κ} :
    {A : Type ℓ} {R : Type κ} (P : R → Type 0) (r : R) (k : A → R) (o : Option A)
    → P r
    → ((x : A) → o ≡ some x → P (k x))
    → P (elim o [ none ↦ r | some x ↦ k x ])
option_elim P r k none h f = h
option_elim P r k (some x) h f = f x refl

list_elim {ℓ κ} :
    {A : Type ℓ} {R : Type κ} (P : R → Type 0) (r : R) (k : A → R) (xs : List A)
    → P r
    → ((x : A) (rest : List A) → xs ≡ x ∷ rest → P (k x))
    → P (elim xs [ [] ↦ r | x ∷ _ ↦ k x ])
list_elim P r k [] h f = h
list_elim P r k (x ∷ xs) h f = f x xs refl

module _ (dumps : Document → String) (crypto : Crypto) where
  -- Sound tables, and a store that holds what they name
  abbrev pub Holds : Catalogue → List String × Reply → Type 0
  Holds db r = IsSound dumps crypto (after db r.1) × IsStored r.0 (after db r.1).files

  -- A row of files that changed for one package, whose manifest is built again
  refreshed-IsSound :
      (now : Instant) (db : Catalogue) (rows : List PackageFile) (i : ℕ) (p : Package)
      → IsSound dumps crypto db
      → package_by_id db.packages i ≡ some p
      → ((j : ℕ) → (j == i) ≡ false → files_of rows j ≡ files_of db.files j)
      → All
          (IsHonest dumps crypto rows)
          (put_package (refresh_manifest dumps now rows p).0 db.packages)
  refreshed-IsSound now db rows i p sound found others =
      let h = found-All dumps crypto (IsHonest dumps crypto db.files) db.packages i p found sound in
      put_package-All dumps crypto db.files rows (refresh_manifest dumps now rows p).0 db.packages
        (refresh_manifest-IsHonest dumps crypto now rows p h.0.0)
        (λ j ne. others j (
          sym (ap (λ k. j == k) (refresh_manifest-id dumps crypto now rows p ∙ ==_sound p.id i h.1))
          ∙ ne))
        sound

  module _ (strip : String → String) (texts : List String → String)
      (files_text : List (String × String × ℕ) → String) (print_id : ℕ → String)
      (permissions : List String) (c : Caller) (db : Catalogue) (store : List String)
      (sound : IsSound dumps crypto db) (stored : IsStored store db.files) where
    upload_files-Holds :
        (max_bytes i : ℕ) (us : List Upload)
        → Holds db (
            upload_files dumps strip crypto texts files_text print_id permissions c db max_bytes i
              us store)
    unfolding upload_files
    upload_files-Holds max_bytes i us =
        if_elim (Holds db) (not (may_write permissions)) _ _ (λ _. (sound, stored))
          λ _.
            option_elim (Holds db) (store, refused package_not_found) _
              (package_by_id db.packages i) (sound, stored)
              λ p found.
                if_elim (Holds db) (is_winget p.kind) _ _ (λ _. (sound, stored))
                  λ _.
                    by (upload_loop max_bytes i us store db.files) _
                      (upload_loop-Left max_bytes i us store db.files db.files stored stored)
                      λ rows others. refreshed-IsSound c.now db rows i p sound found others
      where
        by :
            (r : List String × Answer PackageError (List PackageFile))
            (k : List PackageFile → List AuditEntry × List Package)
            → Left i db.files db.files r
            → ((rows : List PackageFile)
                → ((j : ℕ) → (j == i) ≡ false → files_of rows j ≡ files_of db.files j)
                → All (IsHonest dumps crypto rows) (k rows).1)
            → Holds db (
              r.0,
              elim r.1 [
                | refused e ↦ refused e
                | committed rows ↦
                    committed
                      (record { packages = (k rows).1; files = rows; audit_log = (k rows).0 })
              ],
            )
        by (s, refused e) k left f = (sound, left.0)
        by (s, committed rows) k left f = (f rows left.1.1, left.1.0)

    delete_file-Holds :
        (i : ℕ) (name : String)
        → Holds db
            (delete_file dumps strip crypto texts files_text print_id permissions c db i name store)
    unfolding delete_file
    delete_file-Holds i name =
        if_elim (Holds db) (not (may_write permissions)) _ _ (λ _. (sound, stored))
          λ _.
            option_elim (Holds db) (store, refused package_not_found) _
              (package_by_id db.packages i) (sound, stored)
              λ p found.
                if_elim (Holds db) (is_winget p.kind) _ _ (λ _. (sound, stored))
                  λ _.
                    list_elim (Holds db) (store, refused file_not_found) _
                      (select (λ (f : PackageFile). f.package_id == i && f.name == name) db.files)
                      (sound, stored)
                      λ f rest _.
                        let rows =
                          select (λ (g : PackageFile). not (g.package_id == i && g.name == name))
                            db.files in
                        let kept =
                          All-select _
                            (λ (g : PackageFile). not (g.package_id == i && g.name == name))
                            db.files stored in
                        (
                          refreshed-IsSound c.now db rows i p sound found
                              (λ j ne. files_of-without i j name db.files ne),
                          if_elim (λ s. IsStored s rows) (sha_in_use rows f.sha256) store
                              (remove_unreferenced f.sha256 store) (λ _. kept)
                              (λ unused. removed-IsStored f.sha256 store rows unused kept),
                        )

    -- An answer that leaves the files as they are leaves the store with them.
    with_store :
        (r : Reply)
        → Commits (Kept dumps crypto strip texts files_text print_id permissions c db sound) r
        → Holds db (store, r)
    with_store (refused e) h = (sound, stored)
    with_store (committed db') h = (h.0, subst (IsStored store) (sym h.1) stored)

    -- Whatever is requested of the packages, refused or committed: where the manifest of every package
    -- of files is that of the package as it stands, every signature that a package shows is one that
    -- verifies over that manifest, and every file that a package has is in the store, so it is
    -- afterwards.
    pub sound_kept :
        (max_bytes : ℕ) (r : Request)
        → Holds db
            (handle dumps strip crypto texts files_text print_id max_bytes permissions c db r store)
    unfolding handle
    sound_kept max_bytes (creates i kind name b) = with_store _ (
        create_package-IsSound dumps crypto strip texts files_text print_id permissions c db sound i
          kind name b)
    sound_kept max_bytes (updates i b) = with_store _ (
        update_package-IsSound dumps crypto strip texts files_text print_id permissions c db sound i
          b)
    sound_kept max_bytes (uploads i us) = upload_files-Holds max_bytes i us
    sound_kept max_bytes (deletes_file i name) = delete_file-Holds i name
    sound_kept max_bytes (downloads_manifest i) = with_store _ (
        download_manifest-IsSound dumps crypto strip texts files_text print_id permissions c db
          sound i)
    sound_kept max_bytes (signs i d) = with_store _ (
        attach_signature-IsSound dumps crypto strip texts files_text print_id permissions c db sound
          i d)
    sound_kept max_bytes (unsigns i) = with_store _ (
        remove_signature-IsSound dumps crypto strip texts files_text print_id permissions c db sound
          i)
    sound_kept max_bytes (retires i) = with_store _ (
        retire_package-IsSound dumps crypto strip texts files_text print_id permissions c db sound
          i)
    sound_kept max_bytes (restores i) = with_store _ (
        restore_package-IsSound dumps crypto strip texts files_text print_id permissions c db sound
          i)
