-- ===== src/Security/Tests.antt =====
-- Signatures of a small scheme, and canonical metadata.
use embedded_linux_ota.Prelude.{
  true, false, not, ◌&&◌, ◌++◌, none, some, ◌≡◌, ◌↔◌, refl, all, if◌then◌else◌,
}
use embedded_linux_ota.Text.{Text, codes, text_eq, is_empty}
use embedded_linux_ota.Text.Lines.{lines}
use embedded_linux_ota.Fs.{Files}
use embedded_linux_ota.Validation.Tests.{first_bytes}
use embedded_linux_ota.Security.{
  Keys, is_signed, verify_signature, is_valid_signature_format, base64_chars, contains,
  canonicalize_metadata,
}
use embedded_linux_ota.Security.Verdict.{
  IsSigned, verify_signature_iff, is_valid_signature_format_lem,
}
use embedded_linux_ota.Security.Canonical.{
  kept_lines, join, canonicalize_metadata_idem, canonicalize_metadata_lem,
}

-- A signature is the key and then the data.
abbrev pub plain_keys : Keys Text Text
plain_keys = record {
  read_pem = λ pem. some pem;
  write_pem = λ key. key;
  decode_base64 = λ s. some s;
  verify_init = λ key. some key;
  verify_update = λ v content. some (v ++ content);
  verify_final = λ v signature. text_eq v signature;
}

abbrev key_files : Files
key_files path = if text_eq path (codes "/k") then some (codes "key") else none

verify_signature_iff_example :
    (is_signed
        (verify_signature first_bytes plain_keys
          (λ path. true)
          key_files
          (codes "data")
          (codes "keydata")
          (codes "/k")).status
      ≡ true)
    ↔ IsSigned first_bytes plain_keys
        (λ path. true)
        key_files
        (codes "data")
        (codes "keydata")
        (codes "/k")
verify_signature_iff_example =
    verify_signature_iff first_bytes plain_keys (λ path. true) key_files (codes "data")
      (codes "keydata") (codes "/k")

is_accepted :
    is_signed
      (verify_signature first_bytes plain_keys
        (λ path. true)
        key_files
        (codes "data")
        (codes "keydata")
        (codes "/k")).status
    ≡ true
unfolding verify_signature text_eq
is_accepted = refl

is_refused :
    is_signed
      (verify_signature first_bytes plain_keys
        (λ path. true)
        key_files
        (codes "date")
        (codes "keydata")
        (codes "/k")).status
    ≡ false
unfolding verify_signature text_eq
is_refused = refl

is_valid_signature_format_lem_example :
    is_valid_signature_format (codes "=A==")
    ≡ (not (is_empty (codes "=A==")) && all (contains base64_chars) (codes "=A=="))
is_valid_signature_format_lem_example = is_valid_signature_format_lem (codes "=A==")

-- Padding alone passes.
only_padding : is_valid_signature_format (codes "====") ≡ true
unfolding is_valid_signature_format
only_padding = refl

abbrev metadata : Text
metadata = codes "{\n  \"version\": \"1\"  \r\n\n}"

canonicalize_metadata_idem_instance :
    canonicalize_metadata (canonicalize_metadata metadata) ≡ canonicalize_metadata metadata
canonicalize_metadata_idem_instance = canonicalize_metadata_idem metadata

canonicalize_metadata_lem_example :
    canonicalize_metadata metadata ≡ join (kept_lines (lines metadata))
canonicalize_metadata_lem_example = canonicalize_metadata_lem metadata

canonical : canonicalize_metadata metadata ≡ codes "{\n\"version\": \"1\"\n}"
unfolding canonicalize_metadata
canonical = refl
