-- ===== src/Program/Cli/Signed.antt =====
-- What the exit code of the command `verify-signature` says (src/cli_main.cpp).
use embedded_linux_ota.Prelude.{
  Bool, true, false, Option, some, ◌≡◌, refl, sym, ◌∙◌, arith, inl, inr, ◌↔◌, ◌++◌, Option-cases,
}
use embedded_linux_ota.Text.{Text, codes, is_empty}
use embedded_linux_ota.Fs.{Files}
use embedded_linux_ota.Device.{open_file}
use embedded_linux_ota.Validation.{Evp, Host}
use embedded_linux_ota.Security.{Keys, is_signed, verify_signature}
use embedded_linux_ota.Security.Verdict.{IsSigned, verify_signature_iff}
use embedded_linux_ota.Program.Cli.{CliOptions}
use embedded_linux_ota.Program.Cli.Release.{exit_of, verify_signature_command}

exit_of_iff : (b : Bool) → (exit_of b ≡ 0) ↔ (b ≡ true)
exit_of_iff true = (λ h. refl, λ h. refl)
exit_of_iff false = (λ h. absurd (omega arith), λ h. absurd (cc))

module _ {S K V : Type 0} (evp : Evp S) (host : Host) (keys : Keys K V)
    (encode canonicalize : Text → Text) (o : CliOptions) (fs : Files) where
  abbrev metadata_file : Option Text
  metadata_file = open_file host.can_read fs (o.release_dir ++ codes "/metadata.json")

  abbrev signature_file : Option Text
  signature_file = open_file host.can_read fs (o.release_dir ++ codes "/metadata.sig")

  -- A release whose metadata, in their canonical form, carry the signature beside them.
  pub data IsSignedRelease : Type 0 where
    signed_release :
        (metadata signature : Text)
        → is_empty o.release_dir ≡ false
        → metadata_file ≡ some metadata
        → is_empty metadata ≡ false
        → signature_file ≡ some signature
        → IsSigned evp keys host.can_read fs
            (canonicalize metadata)
            (encode signature)
            o.public_key_path
        → IsSignedRelease

  command_of :
      (metadata signature : Text)
      → is_empty o.release_dir ≡ false
      → metadata_file ≡ some metadata
      → is_empty metadata ≡ false
      → signature_file ≡ some signature
      → verify_signature_command evp host keys encode canonicalize o fs
        ≡ exit_of (
            is_signed
              (verify_signature evp keys host.can_read fs
                (canonicalize metadata)
                (encode signature)
                o.public_key_path).status)
  unfolding verify_signature_command
  command_of metadata signature named found full signed = ground arith

  reached :
      verify_signature_command evp host keys encode canonicalize o fs ≡ 0
      → (metadata : Text) × (signature : Text) × (is_empty o.release_dir ≡ false)
        × (metadata_file ≡ some metadata)
        × (is_empty metadata ≡ false)
        × (signature_file ≡ some signature)
  unfolding verify_signature_command
  reached h = elim (Option-cases metadata_file) [
    | inl e ↦ absurd (ground arith)
    | inr (metadata, e) ↦ elim (Option-cases signature_file) [
      | inl e1 ↦ absurd (ground arith)
      | inr (signature, e1) ↦ (metadata, signature, ground arith, e, ground arith, e1)
    ]
  ]

  -- The command `verify-signature` ends with 0 exactly where a release directory is given, its
  -- metadata file can be opened and is not empty, its signature file can be opened, and the encoded
  -- signature is one of the key's on the canonical form of the metadata.
  pub verify_signature_command_iff :
      (verify_signature_command evp host keys encode canonicalize o fs ≡ 0) ↔ IsSignedRelease
  verify_signature_command_iff = (to, of)
    where
      to : verify_signature_command evp host keys encode canonicalize o fs ≡ 0 → IsSignedRelease
      to h =
          let (metadata, signature, named, found, full, signed) = reached h in
          signed_release metadata signature named found full signed (
            (verify_signature_iff evp keys host.can_read fs (canonicalize metadata)
                (encode signature) o.public_key_path).0
              ((exit_of_iff _).0 (sym (command_of metadata signature named found full signed) ∙ h)))

      of : IsSignedRelease → verify_signature_command evp host keys encode canonicalize o fs ≡ 0
      of (signed_release metadata signature named found full signed genuine) =
          command_of metadata signature named found full signed
          ∙ (exit_of_iff _).1 (
              (verify_signature_iff evp keys host.can_read fs (canonicalize metadata)
                  (encode signature) o.public_key_path).1
                genuine)
