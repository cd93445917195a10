-- ===== src/Package/Signature.antt =====
-- backend/app/features/package/signature.py: the administrator's signature over a manifest. The
-- decoding of base 64, the certificates and the two checks are a library's; bytes are texts here, and
-- the document has been read from JSON, a field that is absent being none.
use natimai_tiai.Prelude.{
  Bool, true, false, not, Option, none, some, String, [], ◌∷◌, string_eq, contains, eq_value,
  coalesce_to, ◌==◌, if◌then◌else◌,
}

pub record SignatureDocument : Type 0 where
  pub format : Option String
  pub algorithm : Option String
  pub signature : Option String
  pub certificate : Option String

pub data PublicKey : Type 0 where
  rsa ec other_key : PublicKey

pub record Certificate : Type 0 where
  pub key : PublicKey
  pub subject : String

-- What the cryptography libraries do, each none or false where it raises: a digest in upper case, and
-- an elliptic signature in either of the forms that `_ecdsa_der` reads
pub record Crypto : Type 0 where
  pub b64decode : String → Option String
  pub load_certificate : String → Option Certificate
  pub sha256_hex : String → String
  pub verify_rsa : Certificate → (signature : String) → (manifest : String) → Bool
  pub verify_ec : Certificate → (signature : String) → (manifest : String) → Bool

pub data SignatureError : Type 0 where
  unknown_format unknown_algorithm badly_encoded unreadable_certificate wrong_key mismatch :
      SignatureError

pub record Verified : Type 0 where
  pub algorithm : String
  pub signature : String
  pub certificate : String
  pub thumbprint : String
  pub subject : String

pub data Verification : Type 0 where
  failed : SignatureError → Verification
  verified : Verified → Verification

module _ (crypto : Crypto) where
  -- `key.verify` by the algorithm and the key of the certificate: none where they disagree
  unfoldable pub checked : String → Certificate → String → String → Option Bool
  checked algorithm cert signature manifest = elim cert.key [
    | rsa ↦
        if algorithm == "rsa-pkcs1-sha256"
        then some (crypto.verify_rsa cert signature manifest)
        else none
    | ec ↦
        if algorithm == "ecdsa-sha256"
        then some (crypto.verify_ec cert signature manifest)
        else none
    | other_key ↦ none
  ]

  -- From the certificate on
  unfoldable pub verify_with : String → String → String → String → Verification
  unfolding checked
  verify_with manifest algorithm signature certificate =
      elim (crypto.load_certificate certificate) [
        | none ↦ failed unreadable_certificate
        | some cert ↦ elim (checked algorithm cert signature manifest) [
          | none ↦ failed wrong_key
          | some false ↦ failed mismatch
          | some true ↦ verified (record {
            algorithm = algorithm;
            signature = signature;
            certificate = certificate;
            thumbprint = crypto.sha256_hex certificate;
            subject = cert.subject;
          })
        ]
      ]

  -- `verify`
  unfoldable pub verify : String → SignatureDocument → Verification
  unfolding verify_with
  verify manifest d =
      if not (eq_value d.format "tiai-signature-1")
      then failed unknown_format
      else elim d.algorithm [
        | none ↦ failed unknown_algorithm
        | some algorithm ↦
            if not (contains ("rsa-pkcs1-sha256" ∷ "ecdsa-sha256" ∷ []) algorithm)
            then failed unknown_algorithm
            else elim (crypto.b64decode (coalesce_to d.signature "")) [
              | none ↦ failed badly_encoded
              | some signature ↦ elim (crypto.b64decode (coalesce_to d.certificate "")) [
                | none ↦ failed badly_encoded
                | some certificate ↦ verify_with manifest algorithm signature certificate
              ]
            ]
      ]
