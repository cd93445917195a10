-- ===== src/Package/Edits.antt =====
-- The handlers of backend/app/api/routes/packages.py that change a package, with the store of files
-- of backend/app/features/package/storage.py, whose content is the digests of the files it holds. An
-- upload's digest, its size and the name of its signer are read from its bytes; texts word the
-- entries of the log.
use Prim.Native.Char.{code}
use natimai_tiai.Prelude.{
  ℕ, Bool, not, ◌&&◌, Option, none, some, String, List, [], ◌∷◌, ◌++◌, map, select, contains,
  string_eq, nat_eq, option_eq, ◌==◌, if◌then◌else◌, ltb, is_null, is_not_null, coalesce_to,
  coalesce,
}
use natimai_tiai.Answers.{Answer, refused, committed, reject}
use natimai_tiai.Audit.{AuditEntry, record_entry}
use natimai_tiai.User.Permissions.{has_permission}
use natimai_tiai.User.Edits.{Caller, entry}
use natimai_tiai.Package.{
  PackageKind, winget, files, is_winget, Package, PackageFile, Document, files_of, is_nil, problems,
  unsigned, refresh_manifest, sha_in_use,
}
use natimai_tiai.Package.Names.{valid_file_name}
use natimai_tiai.Package.Signature.{SignatureDocument, Crypto, Verified, verify, failed, verified}
use natimai_tiai.Package.Body.{PackageBody, default_success_codes, body_valid, apply}

pub data PackageError : Type 0 where
  permission_denied package_not_found package_invalid file_name_invalid file_too_large :
      PackageError
  package_not_ready signature_invalid file_not_found : PackageError

-- The tables of the packages
pub record Catalogue : Type 0 where
  pub packages : List Package
  pub files : List PackageFile
  pub audit_log : List AuditEntry

abbrev pub Reply : Type 0
Reply = Answer PackageError Catalogue

pub record Upload : Type 0 where
  pub filename : Option String
  pub sha256 : String
  pub size : ℕ
  pub publisher : Option String

-- What follows the last separator, where there is one
unfoldable pub after_last : ℕ → String → Option String
after_last sep String.[] = none
after_last sep (String.◌∷◌ c s) =
    coalesce (after_last sep s) (if code c == sep then some s else none)

-- `rsplit(sep, 1)[-1]`
unfoldable pub last_part : ℕ → String → String
unfolding after_last
last_part sep s = coalesce_to (after_last sep s) s

-- The name of an uploaded file, without its folders
unfoldable pub upload_name : Upload → String
unfolding last_part
upload_name u = last_part 92 (last_part 47 (coalesce_to u.filename ""))

unfoldable pub put_package : Package → List Package → List Package
put_package p' rows = map (λ (p : Package). if p.id == p'.id then p' else p) rows

unfoldable pub package_by_id : List Package → ℕ → Option Package
package_by_id [] i = none
package_by_id (p ∷ rows) i = if p.id == i then some p else package_by_id rows i

-- The dependencies of the router and of its writes
unfoldable pub may_write : List String → Bool
may_write permissions =
    has_permission permissions "package" "read" && has_permission permissions "package" "write"

-- The row of a file that replaces one of its name
unfoldable pub put_file : PackageFile → List PackageFile → List PackageFile
put_file f rows =
    select (λ (g : PackageFile). not (g.package_id == f.package_id && g.name == f.name)) rows
    ++ f ∷ []

-- `storage.save`, of a file that is not too large
unfoldable pub save : String → List String → List String
save sha256 store = if contains store sha256 then store else store ++ sha256 ∷ []

-- `remove_unreferenced`
unfoldable pub remove_unreferenced : String → List String → List String
remove_unreferenced sha256 store = select (λ s. not (s == sha256)) store

-- The loop of `upload_files`: the store, and the rows or the error that is raised
unfoldable pub upload_loop :
    (max_bytes : ℕ)
    → ℕ
    → List Upload
    → List String
    → List PackageFile
    → List String × Answer PackageError (List PackageFile)
unfolding upload_name put_file save
upload_loop max_bytes i [] store rows = (store, committed rows)
upload_loop max_bytes i (u ∷ us) store rows =
    let rest = upload_loop max_bytes i us (save u.sha256 store) (
      put_file
        (record {
          package_id = i;
          name = upload_name u;
          sha256 = u.sha256;
          size = u.size;
          publisher_name = u.publisher;
        })
        rows) in
    if not (valid_file_name (upload_name u))
    then (store, refused file_name_invalid)
    else if ltb max_bytes u.size
    then (store, refused file_too_large)
    else rest

module _ (dumps : Document → String) (strip : String → String) (crypto : Crypto)
    (texts : List String → String) (files_text : List (String × String × ℕ) → String)
    (print_id : ℕ → String) (permissions : List String) (c : Caller) (db : Catalogue) where
  abbrev logged : String → Package → List (String × Option String) → Catalogue → Catalogue
  logged action p details after = record after {
    audit_log =
        record_entry (entry c action "package" (print_id p.id) (("name", some p.name) ∷ details))
          after.audit_log;
  }

  -- The row after `refresh_manifest` over the files given, and its entry in the log
  abbrev refreshed : String → Package → List PackageFile → List (String × Option String) → Catalogue
  refreshed action p rows details =
      let (p', _) = refresh_manifest dumps c.now rows p in
      logged action p' details (record db { packages = put_package p' db.packages; files = rows })

  -- `require_package`, after the permissions
  abbrev on_package : ℕ → (Package → Reply) → Reply
  on_package i k =
      reject (not (may_write permissions)) permission_denied
        (elim (package_by_id db.packages i) as (λ _. Reply) [
          | none ↦ refused package_not_found
          | some p ↦ k p
        ])

  -- `_require_files_kind`, whether it raises
  abbrev not_files : Package → Bool
  not_files p = is_winget p.kind

  abbrev pub new_package : ℕ → PackageKind → String → Package
  new_package i kind name = record {
    id = i;
    kind = kind;
    name = name;
    version = none;
    notes = none;
    winget_id = none;
    winget_version = none;
    install_run = none;
    install_args = [];
    uninstall_run = none;
    uninstall_args = [];
    success_codes = default_success_codes;
    detect_name = none;
    manifest = none;
    signature = none;
    signature_algorithm = none;
    signer_certificate = none;
    signer_thumbprint = none;
    signer_subject = none;
    signed_at = none;
    signed_by = none;
    created_by = some c.current.email;
    created_at = c.now;
    updated_at = c.now;
    retired_at = none;
  }

  -- `create_package`
  unfoldable pub create_package : ℕ → PackageKind → String → PackageBody → Reply
  unfolding may_write body_valid apply
  create_package i kind name b = reject (not (may_write permissions)) permission_denied (
      reject (not (body_valid (record b { name = some name }))) package_invalid
        (elim (apply strip (record b { name = some name }) (new_package i kind name))
          as (λ _. Reply) [
            | none ↦ refused package_invalid
            | some p ↦
                let (p', _) = refresh_manifest dumps c.now db.files p in
                committed (
                  logged "package.create" p'
                    (("kind", some (elim kind [ winget ↦ "winget" | files ↦ "files" ])) ∷ [])
                    (record db { packages = db.packages ++ p' ∷ [] }))
          ]))

  -- The names of the fields sent, sorted
  pub fields_sent : PackageBody → List String
  fields_sent b =
      let when : Bool → String → List String → List String =
        λ sent key rest. if sent then key ∷ rest else rest in
      when (is_not_null b.detect_name) "detect_name" (
        when (is_not_null b.install_args) "install_args" (
          when (is_not_null b.install_run) "install_run" (
            when (is_not_null b.name) "name" (
              when (is_not_null b.notes) "notes" (
                when (is_not_null b.success_codes) "success_codes" (
                  when (is_not_null b.uninstall_args) "uninstall_args" (
                    when (is_not_null b.uninstall_run) "uninstall_run" (
                      when (is_not_null b.version) "version" (
                        when (is_not_null b.winget_id) "winget_id"
                          (when (is_not_null b.winget_version) "winget_version" []))))))))))

  -- `update_package`
  unfoldable pub update_package : ℕ → PackageBody → Reply
  unfolding may_write package_by_id body_valid apply fields_sent put_package
  update_package i b = reject (not (may_write permissions)) permission_denied (
      reject (not (body_valid b)) package_invalid
        (elim (package_by_id db.packages i) as (λ _. Reply) [
          | none ↦ refused package_not_found
          | some p ↦ elim (apply strip b p) as (λ _. Reply) [
            | none ↦ refused package_invalid
            | some p' ↦
                let moved =
                  (refresh_manifest dumps c.now db.files (record p' { updated_at = c.now })).1 in
                committed (
                  refreshed "package.update" (record p' { updated_at = c.now }) db.files
                    (("fields", some (texts (fields_sent b)))
                      ∷ ("signature_voided", some (if moved then "true" else "false"))
                      ∷ []))
          ]
        ]))

  -- `upload_files`, with the store that it leaves
  unfoldable pub upload_files :
      (max_bytes : ℕ) → ℕ → List Upload → List String → List String × Reply
  unfolding may_write package_by_id upload_loop put_package
  upload_files max_bytes i us store =
      if not (may_write permissions)
      then (store, refused permission_denied)
      else elim (package_by_id db.packages i) [
        | none ↦ (store, refused package_not_found)
        | some p ↦ if not_files p then (store, refused package_invalid) else (
          (upload_loop max_bytes i us store db.files).0,
          elim (upload_loop max_bytes i us store db.files).1 [
            | refused e ↦ refused e
            | committed rows ↦ committed (
                refreshed "package.upload" p rows (
                  (
                    "files",
                    some (files_text (map (λ (u : Upload). (upload_name u, u.sha256, u.size)) us)),
                  )
                  ∷ []))
          ],
        )
      ]

  -- `delete_file`
  unfoldable pub delete_file : ℕ → String → List String → List String × Reply
  unfolding may_write package_by_id put_package remove_unreferenced
  delete_file i name store =
      if not (may_write permissions)
      then (store, refused permission_denied)
      else elim (package_by_id db.packages i) [
        | none ↦ (store, refused package_not_found)
        | some p ↦
            if not_files p
            then (store, refused package_invalid)
            else elim (select (λ (f : PackageFile). f.package_id == i && f.name == name) db.files) [
              | [] ↦ (store, refused file_not_found)
              | f ∷ _ ↦
                  let rows =
                    select (λ (g : PackageFile). not (g.package_id == i && g.name == name))
                      db.files in
                  (
                    if sha_in_use rows f.sha256 then store else remove_unreferenced f.sha256 store,
                    committed (refreshed "package.file_delete" p rows (("file", some name) ∷ [])),
                  )
            ]
      ]

  -- `download_manifest`, what it commits: a manifest that was missing
  unfoldable pub download_manifest : ℕ → Reply
  unfolding may_write package_by_id put_package
  download_manifest i = on_package i λ p. reject (not_files p) package_invalid (
      if is_null p.manifest
      then committed (record db {
        packages = put_package (refresh_manifest dumps c.now db.files p).0 db.packages;
      })
      else committed db)

  abbrev signed : Verified → Package → Package
  signed v p = record p {
    signature = some v.signature;
    signature_algorithm = some v.algorithm;
    signer_certificate = some v.certificate;
    signer_thumbprint = some v.thumbprint;
    signer_subject = some v.subject;
    signed_at = some c.now;
    signed_by = some c.current.email;
  }

  abbrev stored : String → Package → List (String × Option String) → Reply
  stored action p details =
      committed (logged action p details (record db { packages = put_package p db.packages }))

  -- `attach_signature`
  unfoldable pub attach_signature : ℕ → SignatureDocument → Reply
  unfolding may_write package_by_id problems put_package
  attach_signature i d = on_package i λ p. reject (not_files p) package_invalid (
      reject (not (is_nil (problems p (files_of db.files i)))) package_not_ready
        (elim (verify crypto (coalesce_to p.manifest "") d) as (λ _. Reply) [
          | failed e ↦ refused signature_invalid
          | verified v ↦
              stored "package.sign" (signed v p)
                (("signer", some v.subject) ∷ ("thumbprint", some v.thumbprint) ∷ [])
        ]))

  -- `remove_signature`, `retire_package` and `restore_package`
  unfoldable pub remove_signature : ℕ → Reply
  unfolding may_write package_by_id put_package
  remove_signature i = on_package i λ p. stored "package.unsign" (unsigned p) []

  unfoldable pub retire_package : ℕ → Reply
  unfolding may_write package_by_id put_package
  retire_package i = on_package i λ p.
      stored "package.retire" (record p { retired_at = some (coalesce_to p.retired_at c.now) }) []

  unfoldable pub restore_package : ℕ → Reply
  unfolding may_write package_by_id put_package
  restore_package i = on_package i λ p. stored "package.restore" (record p { retired_at = none }) []
