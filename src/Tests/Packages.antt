-- ===== src/Tests/Packages.antt =====
-- A package of files that is signed, and what an upload and a file's deletion do to it.
use natimai_tiai.Prelude.{
  ℕ, ◌≡◌, inr, refl, true, false, none, some, String, List, [], ◌∷◌, string_eq, ◌==◌,
}
use natimai_tiai.Prelude.Int.{pos}
use natimai_tiai.User.Accounts.{User, digest_daily}
use natimai_tiai.User.Permissions.{has_permission}
use natimai_tiai.User.Edits.{Caller}
use natimai_tiai.Package.{Package, PackageFile, Document, files, document}
use natimai_tiai.Package.Names.{valid_file_name, valid_winget_id, chomp, stem}
use natimai_tiai.Package.Signature.{
  Crypto, SignatureDocument, Verified, rsa, verify, verify_with, checked,
}
use natimai_tiai.Package.Edits.{
  Catalogue, Upload, upload_files, upload_loop, upload_name, last_part, after_last, may_write,
  package_by_id, save,
}
use natimai_tiai.Package.Requests.{uploads, handle}
use natimai_tiai.Package.Honest.{IsSound}
use natimai_tiai.Package.Sound.{Holds, sound_kept}

-- A document's text: a stroke to a file
abbrev strokes : List (String × String × ℕ) → String
strokes [] = ""
strokes (x ∷ xs) = String.◌∷◌ "|" (strokes xs)

abbrev dumps : Document → String
dumps d = strokes d.files

abbrev same : String → String
same s = s

-- Signatures that are the text that they sign
abbrev crypto : Crypto
crypto = record {
  b64decode = some;
  load_certificate = λ s. some (record { key = rsa; subject = "CN=Admin" });
  sha256_hex = same;
  verify_rsa = λ cert signature manifest. signature == manifest;
  verify_ec = λ cert signature manifest. false;
}

abbrev signature_document : SignatureDocument
signature_document = record {
  format = some "tiai-signature-1";
  algorithm = some "rsa-pkcs1-sha256";
  signature = some "|";
  certificate = some "cert";
}

abbrev checked_signature : Verified
checked_signature = record {
  algorithm = "rsa-pkcs1-sha256";
  signature = "|";
  certificate = "cert";
  thumbprint = "cert";
  subject = "CN=Admin";
}

abbrev tool : Package
tool = record {
  id = 4;
  kind = files;
  name = "Outil";
  version = some "1.0";
  notes = none;
  winget_id = none;
  winget_version = none;
  install_run = some "setup.exe";
  install_args = [];
  uninstall_run = none;
  uninstall_args = [];
  success_codes = pos 0 ∷ [];
  detect_name = none;
  manifest = some "|";
  signature = some "|";
  signature_algorithm = some "rsa-pkcs1-sha256";
  signer_certificate = some "cert";
  signer_thumbprint = some "cert";
  signer_subject = some "CN=Admin";
  signed_at = some 5;
  signed_by = some "a";
  created_by = some "a";
  created_at = 1;
  updated_at = 5;
  retired_at = none;
}

abbrev setup : PackageFile
setup = record {
  package_id = 4;
  name = "setup.exe";
  sha256 = "s1";
  size = 10;
  publisher_name = none;
}

abbrev catalogue : Catalogue
catalogue = record { packages = tool ∷ []; files = setup ∷ []; audit_log = [] }

abbrev account : User
account = record {
  id = 1;
  email = "a";
  hashed_password = "";
  full_name = none;
  email_preference = digest_daily;
  is_active = true;
  password_changed_at = none;
  failed_login_attempts = 0;
  locked_until = none;
  created_at = 0;
  updated_at = 0;
}

abbrev caller : Caller
caller = record { current = account; now = 7; ip = none }

abbrev permissions : List String
permissions = "package:read" ∷ "package:write" ∷ []

abbrev config : Upload
config = record { filename = some "dossier/app.ini"; sha256 = "s2"; size = 3; publisher = none }

sound : IsSound dumps crypto catalogue
unfolding document verify verify_with checked
sound = (
  (inr (signature_document, checked_signature, refl, refl, refl, refl, refl, refl, refl), inr refl),
  tt,
)

-- An upload is stored beside what is there.
stored_beside :
    (upload_files dumps same crypto
      (λ ts. "")
      (λ ts. "")
      (λ i. "")
      permissions
      caller
      catalogue
      100
      4
      (config ∷ [])
      ("s1" ∷ [])).0
    ≡ "s1" ∷ "s2" ∷ []
unfolding upload_files upload_loop may_write package_by_id save has_permission valid_file_name chomp
    stem upload_name last_part after_last
stored_beside = refl

-- `$` passes before the newline that ends a text.
newline_passes : valid_winget_id "Mozilla.Firefox\n" ≡ true
unfolding valid_winget_id chomp
newline_passes = refl

newline_named : valid_file_name "setup.exe\n" ≡ true
unfolding valid_file_name chomp stem
newline_named = refl

device_refused : valid_file_name "Com1.exe" ≡ false
unfolding valid_file_name chomp stem
device_refused = refl

sound_kept_example : Holds dumps crypto catalogue (
    handle dumps same crypto
      (λ ts. "")
      (λ ts. "")
      (λ i. "")
      100
      permissions
      caller
      catalogue
      (uploads 4 (config ∷ []))
      ("s1" ∷ []))
sound_kept_example =
    sound_kept dumps crypto same (λ ts. "") (λ ts. "") (λ i. "") permissions caller catalogue
      ("s1" ∷ []) sound (refl, tt) 100 (uploads 4 (config ∷ []))
