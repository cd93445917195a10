-- ===== src/Package.antt =====
-- backend/app/features/package/models.py and manifest.py, with `refresh_manifest` and `sha_in_use` of
-- crud.py: the packages that the console deploys, the manifest that a signature covers, and what a
-- package lacks. `dumps` is the JSON text of the document. A text is compared by its code points.
-- The column `publisher_name` of a package, which nothing writes, is left out.
pub mod Names
pub mod Signature
pub mod Body
pub mod Edits
pub mod Requests
pub mod Honest
pub mod Stored
pub mod Sound
use natimai_tiai.Prelude.{
  ℕ, Bool, true, false, not, ◌&&◌, ◌||◌, Option, none, some, String, List, [], ◌∷◌, ◌++◌, map, any,
  select, string_eq, nat_eq, option_eq, ◌==◌, if◌then◌else◌, ltb, is_null,
}
use natimai_tiai.Prelude.Int.{ℤ}
use natimai_tiai.Prelude.Time.{Instant}
use natimai_tiai.Command.Result.{truthy}
use natimai_tiai.Package.Names.{codes}

pub data PackageKind : Type 0 where
  winget files : PackageKind

abbrev pub is_winget : PackageKind → Bool
is_winget winget = true
is_winget files = false

pub record Package : Type 0 where
  pub id : ℕ
  pub kind : PackageKind
  pub name : String
  pub version : Option String
  pub notes : Option String
  pub winget_id : Option String
  pub winget_version : Option String
  pub install_run : Option String
  pub install_args : List String
  pub uninstall_run : Option String
  pub uninstall_args : List String
  pub success_codes : List ℤ
  pub detect_name : Option String
  pub manifest : Option String
  pub signature : Option String
  pub signature_algorithm : Option String
  pub signer_certificate : Option String
  pub signer_thumbprint : Option String
  pub signer_subject : Option String
  pub signed_at : Option Instant
  pub signed_by : Option String
  pub created_by : Option String
  pub created_at : Instant
  pub updated_at : Instant
  pub retired_at : Option Instant

pub record PackageFile : Type 0 where
  pub package_id : ℕ
  pub name : String
  pub sha256 : String
  pub size : ℕ
  pub publisher_name : Option String

-- MSIEXEC
abbrev pub msiexec : String
msiexec = "msiexec"

pub data Problem : Type 0 where
  no_files no_install install_missing uninstall_missing no_uninstall : Problem

-- `files_of`, by the identifier; `build` sorts the names itself.
abbrev pub files_of : List PackageFile → ℕ → List PackageFile
files_of rows i = select (λ (f : PackageFile). f.package_id == i) rows

-- `name in names`
pub is_file : List PackageFile → String → Bool
is_file rows name = any (λ (f : PackageFile). f.name == name) rows

abbrev pub is_nil {ℓ} : {A : Type ℓ} → List A → Bool
is_nil [] = true
is_nil (x ∷ xs) = false

-- A text that is there and not empty, which passes no test
abbrev pub set_but : (String → Bool) → Option String → Bool
set_but p none = false
set_but p (some s) = not (s == "") && not (p s)

-- `problems`
pub problems : Package → List PackageFile → List Problem
unfolding is_file
problems p rows =
    (if is_nil rows then no_files ∷ [] else [])
    ++ ((if not (truthy p.install_run)
          then no_install ∷ []
          else if set_but (λ run. run == msiexec || is_file rows run) p.install_run
          then install_missing ∷ []
          else [])
        ++ (if set_but (λ run. run == msiexec || is_file rows run) p.uninstall_run
            then uninstall_missing ∷ []
            else []))

-- One text before another, code point by code point
pub before : List ℕ → List ℕ → Bool
before [] [] = false
before [] (d ∷ ds) = true
before (c ∷ cs) [] = false
before (c ∷ cs) (d ∷ ds) = ltb c d || (c == d && before cs ds)

-- `sorted(files, key=lambda f: f.name)`
pub insert_file : PackageFile → List PackageFile → List PackageFile
unfolding before
insert_file f [] = f ∷ []
insert_file f (g ∷ gs) =
    let rest = insert_file f gs in
    if before (codes g.name) (codes f.name) then g ∷ rest else f ∷ g ∷ gs

pub sorted_files : List PackageFile → List PackageFile
unfolding insert_file
sorted_files [] = []
sorted_files (f ∷ fs) = insert_file f (sorted_files fs)

-- What the manifest says
pub record Document : Type 0 where
  pub package_id : ℕ
  pub name : String
  pub version : String
  pub files : List (String × String × ℕ)
  pub install : Option (String × List String)
  pub uninstall : Option (String × List String)
  pub success_codes : List ℤ

-- `{"run": run, "args": args} if run else None`
abbrev pub command : Option String → List String → Option (String × List String)
command none args = none
command (some run) args = if run == "" then none else some (run, args)

unfoldable pub document : Package → List PackageFile → Document
unfolding sorted_files
document p rows = record {
  package_id = p.id;
  name = p.name;
  version = elim p.version [ none ↦ "" | some v ↦ v ];
  files = map (λ (f : PackageFile). (f.name, f.sha256, f.size)) (sorted_files rows);
  install = command p.install_run p.install_args;
  uninstall = command p.uninstall_run p.uninstall_args;
  success_codes = p.success_codes;
}

-- The columns of a signature, emptied
abbrev pub unsigned : Package → Package
unsigned p = record p {
  signature = none;
  signature_algorithm = none;
  signer_certificate = none;
  signer_thumbprint = none;
  signer_subject = none;
  signed_at = none;
  signed_by = none;
}

-- `refresh_manifest`: the row, and whether its bytes moved
unfoldable pub refresh_manifest :
    (dumps : Document → String) → Instant → List PackageFile → Package → Package × Bool
unfolding document
refresh_manifest dumps now rows p =
    let built = dumps (document p (files_of rows p.id)) in
    if is_winget p.kind
    then (p, false)
    else if some built == p.manifest
    then (p, false)
    else (record (unsigned p) { manifest = some built; updated_at = now }, true)

-- `sha_in_use`
unfoldable pub sha_in_use : List PackageFile → String → Bool
sha_in_use rows sha256 = any (λ (f : PackageFile). f.sha256 == sha256) rows
