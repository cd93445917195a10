-- ===== src/Package/Requests.antt =====
-- The writing requests of backend/app/api/routes/packages.py, as one, on the tables and the store.
use natimai_tiai.Prelude.{ℕ, String, List}
use natimai_tiai.Answers.{refused, committed}
use natimai_tiai.User.Edits.{Caller}
use natimai_tiai.Package.{PackageKind, Document}
use natimai_tiai.Package.Signature.{Crypto, SignatureDocument}
use natimai_tiai.Package.Body.{PackageBody}
use natimai_tiai.Package.Edits.{
  Catalogue, Reply, Upload, create_package, update_package, upload_files, delete_file,
  download_manifest, attach_signature, remove_signature, retire_package, restore_package,
}

-- The identifier of a new package is the server's.
pub data Request : Type 0 where
  creates : ℕ → PackageKind → String → PackageBody → Request
  updates : ℕ → PackageBody → Request
  uploads : ℕ → List Upload → Request
  deletes_file : ℕ → String → Request
  downloads_manifest : ℕ → Request
  signs : ℕ → SignatureDocument → Request
  unsigns : ℕ → Request
  retires : ℕ → Request
  restores : ℕ → Request

-- What stands in the tables after an answer
abbrev pub after : Catalogue → Reply → Catalogue
after db (refused e) = db
after db (committed db') = db'

module _ (dumps : Document → String) (strip : String → String) (crypto : Crypto)
    (texts : List String → String) (files_text : List (String × String × ℕ) → String)
    (print_id : ℕ → String) (max_bytes : ℕ) (permissions : List String) (c : Caller)
    (db : Catalogue) where
  unfoldable pub handle : Request → List String → List String × Reply
  handle (creates i kind name b) store = (
    store,
    create_package dumps strip crypto texts files_text print_id permissions c db i kind name b,
  )
  handle (updates i b) store =
      (store, update_package dumps strip crypto texts files_text print_id permissions c db i b)
  handle (uploads i us) store =
      upload_files dumps strip crypto texts files_text print_id permissions c db max_bytes i us
        store
  handle (deletes_file i name) store =
      delete_file dumps strip crypto texts files_text print_id permissions c db i name store
  handle (downloads_manifest i) store =
      (store, download_manifest dumps strip crypto texts files_text print_id permissions c db i)
  handle (signs i d) store =
      (store, attach_signature dumps strip crypto texts files_text print_id permissions c db i d)
  handle (unsigns i) store =
      (store, remove_signature dumps strip crypto texts files_text print_id permissions c db i)
  handle (retires i) store =
      (store, retire_package dumps strip crypto texts files_text print_id permissions c db i)
  handle (restores i) store =
      (store, restore_package dumps strip crypto texts files_text print_id permissions c db i)
