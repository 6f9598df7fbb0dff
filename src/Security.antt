-- ===== src/Security.antt =====
-- `SignatureVerifier` (include/security/signature_verifier.h, src/security/signature_verifier.cpp).
-- OpenSSL is a parameter. What is logged is left out.
pub mod Verdict
pub mod Canonical
pub mod Tests
use embedded_linux_ota.Prelude.{
  ℕ, ◌+◌, ◌-◌, Bool, true, false, not, ◌&&◌, ◌||◌, List, [], ◌∷◌, ◌++◌, Option, none, some, ◌>>=◌,
  ◌==◌, ltb, leb, if◌then◌else◌, get_or, length, drop, all,
}
use embedded_linux_ota.Text.{Text, codes, is_empty}
use embedded_linux_ota.Text.Lines.{lines, trim}
use embedded_linux_ota.Fs.{Files}
use embedded_linux_ota.Device.{open_file}
use embedded_linux_ota.Validation.{Evp, to_hex}

pub data SignatureStatus : Type 0 where
  signature_valid signature_invalid signature_missing signature_format_invalid : SignatureStatus
  public_key_missing public_key_invalid public_key_cannot_load signed_data_invalid : SignatureStatus
  verification_error crypto_error : SignatureStatus

abbrev pub signature_status_to_string : SignatureStatus → Text
signature_status_to_string signature_valid = codes "SIGNATURE_VALID"
signature_status_to_string signature_invalid = codes "SIGNATURE_INVALID"
signature_status_to_string signature_missing = codes "SIGNATURE_MISSING"
signature_status_to_string signature_format_invalid = codes "SIGNATURE_FORMAT_INVALID"
signature_status_to_string public_key_missing = codes "PUBLIC_KEY_MISSING"
signature_status_to_string public_key_invalid = codes "PUBLIC_KEY_INVALID"
signature_status_to_string public_key_cannot_load = codes "PUBLIC_KEY_CANNOT_LOAD"
signature_status_to_string signed_data_invalid = codes "SIGNED_DATA_INVALID"
signature_status_to_string verification_error = codes "VERIFICATION_ERROR"
signature_status_to_string crypto_error = codes "CRYPTO_ERROR"

-- `public_key_info` is never set.
pub record SignatureResult : Type 0 where
  pub status : SignatureStatus
  pub error_message : Text
  pub signed_data_hash : Text

abbrev pub is_signed : SignatureStatus → Bool
is_signed signature_valid = true
is_signed _ = false

-- What is used of OpenSSL besides its digest, on keys of type `K` and verification contexts of type
-- `V`; `none` and `false` stand for a failure.
pub record Keys (K V : Type 0) : Type 0 where
  pub read_pem : Text → Option K
  pub write_pem : K → Text
  pub decode_base64 : Text → Option Text
  pub verify_init : K → Option V
  pub verify_update : V → Text → Option V
  pub verify_final : V → Text → Bool

abbrev pub base64_chars : Text
base64_chars = codes "ABCDEFGHIJKLMNOPQRSTUVWXYZabcdefghijklmnopqrstuvwxyz0123456789+/="

unfoldable pub contains : Text → ℕ → Bool
contains [] c = false
contains (d ∷ s) c = d == c || contains s c

-- `s[n]`
abbrev pub at : ℕ → Text → ℕ
at n s = elim (drop n s) [ [] ↦ 0 | c ∷ r ↦ c ]

-- The number of `=` at the end that are counted.
unfoldable pub padding_of : Text → ℕ
padding_of s =
    let size = length s in
    if ltb size 2
    then 0
    else if not (at (size - 1) s == b'=')
    then 0
    else if leb 3 size && at (size - 2) s == b'='
    then 2
    else 1

unfoldable pub is_valid_signature_format : Text → Bool
unfolding contains padding_of
is_valid_signature_format signature =
    if is_empty signature
    then false
    else if not (all (contains base64_chars) signature)
    then false
    else ltb 0 (length signature - padding_of signature)

abbrev pub without_hash : SignatureStatus → Text → SignatureResult
without_hash status message = record {
  status = status;
  error_message = message;
  signed_data_hash = [];
}

-- `canonicalize_metadata`: one round of its loop.
abbrev pub add_line : Text → Text → Text
unfolding trim
add_line result line =
    let trimmed = trim line in
    if is_empty trimmed
    then result
    else if is_empty result
    then trimmed
    else result ++ (b'\n' ∷ trimmed)

unfoldable pub add_lines : Text → List Text → Text
unfolding trim
add_lines result [] = result
add_lines result (line ∷ rest) = add_lines (add_line result line) rest

unfoldable pub canonicalize_metadata : Text → Text
unfolding lines add_lines
canonicalize_metadata metadata_json = add_lines [] (lines metadata_json)

module _ {S K V : Type 0} (evp : Evp S) (keys : Keys K V) (can_read : Text → Bool) where
  -- `calculate_sha256` of a text.
  unfoldable pub data_hash : Text → Text
  unfolding to_hex
  data_hash content =
      get_or []
        (do s ← evp.init; s1 ← evp.update s content; hash ← evp.final s1; some (to_hex hash))

  unfoldable pub load_pem_public_key : Files → Text → Option K
  load_pem_public_key fs path = open_file can_read fs path >>= keys.read_pem

  -- `base64_decode`; a failure is the empty text.
  abbrev pub base64_decode : Text → Text
  base64_decode encoded = get_or [] (keys.decode_base64 encoded)

  unfoldable pub verify_ecdsa_signature : K → Text → Text → Bool
  verify_ecdsa_signature key content signature = get_or false (do
    v ← keys.verify_init key
    v1 ← keys.verify_update v content
    some (keys.verify_final v1 signature))

  unfoldable pub verify_signature : Files → Text → Text → Text → SignatureResult
  unfolding is_valid_signature_format load_pem_public_key verify_ecdsa_signature data_hash
  verify_signature fs signed_data signature_base64 public_key_path =
      if is_empty signed_data
      then without_hash signed_data_invalid (codes "Signed data is empty")
      else if is_empty signature_base64
      then without_hash signature_missing (codes "Signature is missing")
      else if not (is_valid_signature_format signature_base64)
      then without_hash signature_format_invalid
          (codes "Invalid signature format (not valid base64)")
      else elim (open_file can_read fs public_key_path) [
        | none ↦ without_hash public_key_missing (codes "Public key not found: " ++ public_key_path)
        | some pem ↦ elim (load_pem_public_key fs public_key_path) [
          | none ↦
              without_hash public_key_cannot_load
                (codes "Cannot load public key: " ++ public_key_path)
          | some key ↦
              let signature = base64_decode signature_base64 in
              if is_empty signature
              then without_hash crypto_error (codes "Failed to decode signature")
              else if verify_ecdsa_signature key signed_data signature
              then record {
                status = signature_valid;
                error_message = [];
                signed_data_hash = data_hash signed_data;
              }
              else record {
                status = signature_invalid;
                error_message = codes "Signature verification failed";
                signed_data_hash = data_hash signed_data;
              }
        ]
      ]

  unfoldable pub verify_file_signature : Files → Text → Text → Text → SignatureResult
  unfolding verify_signature
  verify_file_signature fs file_path signature_base64 public_key_path =
      elim (open_file can_read fs file_path) [
        | none ↦ without_hash signed_data_invalid (codes "Cannot open file: " ++ file_path)
        | some content ↦ verify_signature fs content signature_base64 public_key_path
      ]

  abbrev pub load_public_key : Files → Text → Text
  load_public_key fs path = get_or [] (open_file can_read fs path)

  unfoldable pub get_public_key_fingerprint : Files → Text → Text
  unfolding load_pem_public_key data_hash
  get_public_key_fingerprint fs path = elim (load_pem_public_key fs path) [
    | none ↦ []
    | some key ↦ data_hash (keys.write_pem key)
  ]
