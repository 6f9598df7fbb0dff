-- ===== src/Security/Verdict.antt =====
-- When a signature is accepted.
use embedded_linux_ota.Prelude.{
  ◌<◌, Bool, true, false, not, ◌&&◌, [], ◌∷◌, some, ◌≡◌, refl, sym, ◌∙◌, arith, length, all,
  Option-cases, inl, inr, ◌↔◌,
}
use embedded_linux_ota.Text.{Text, is_empty}
use embedded_linux_ota.Fs.{Files}
use embedded_linux_ota.Device.{open_file}
use embedded_linux_ota.Validation.{Evp}
use embedded_linux_ota.Security.{
  is_signed, Keys, base64_chars, contains, padding_of, is_valid_signature_format,
  load_pem_public_key, verify_ecdsa_signature, verify_signature, verify_file_signature,
}

padding_bound : (s : Text) → is_empty s ≡ false → padding_of s < length s
unfolding padding_of
padding_bound [] h = absurd (cc)
padding_bound (c ∷ s) h = ground arith

-- The format check accepts exactly the texts that are not empty and hold only letters, digits,
-- `+`, `/` and `=`: the count of the padding refuses nothing.
pub is_valid_signature_format_lem :
    (s : Text) → is_valid_signature_format s ≡ (not (is_empty s) && all (contains base64_chars) s)
unfolding is_valid_signature_format
is_valid_signature_format_lem [] = refl
is_valid_signature_format_lem (c ∷ s) = let bound = padding_bound (c ∷ s) refl in ground arith

module _ {S K V : Type 0} (evp : Evp S) (keys : Keys K V) (can_read : Text → Bool) where
  -- Data that is not empty, with a signature of base64 letters that decodes to bytes under which
  -- the key in the file at the path verifies the data.
  pub data IsSigned (fs : Files) (content signature key_path : Text) : Type 0 where
    signed_by :
        (pem raw : Text) (key : K) (v v1 : V)
        → is_empty content ≡ false
        → is_empty signature ≡ false
        → all (contains base64_chars) signature ≡ true
        → can_read key_path ≡ true
        → fs key_path ≡ some pem
        → keys.read_pem pem ≡ some key
        → keys.decode_base64 signature ≡ some raw
        → is_empty raw ≡ false
        → keys.verify_init key ≡ some v
        → keys.verify_update v content ≡ some v1
        → keys.verify_final v1 raw ≡ true
        → IsSigned fs content signature key_path

  ecdsa_true :
      (key : K) (content raw : Text) (v v1 : V)
      → keys.verify_init key ≡ some v
      → keys.verify_update v content ≡ some v1
      → keys.verify_final v1 raw ≡ true
      → verify_ecdsa_signature evp keys can_read key content raw ≡ true
  unfolding verify_ecdsa_signature
  ecdsa_true key content raw v v1 a b c = ground arith

  ecdsa_parts :
      (key : K) (content raw : Text)
      → verify_ecdsa_signature evp keys can_read key content raw ≡ true
      → (v : V) × (v1 : V) × (keys.verify_init key ≡ some v)
        × (keys.verify_update v content ≡ some v1)
        × (keys.verify_final v1 raw ≡ true)
  unfolding verify_ecdsa_signature
  ecdsa_parts key content raw h = elim (Option-cases (keys.verify_init key)) [
    | inl e ↦ absurd (ground arith)
    | inr (v, e) ↦ elim (Option-cases (keys.verify_update v content)) [
      | inl e1 ↦ absurd (ground arith)
      | inr (v1, e1) ↦ (v, v1, e, e1, ground arith)
    ]
  ]

  loaded_key :
      (fs : Files) (path pem : Text)
      → open_file can_read fs path ≡ some pem
      → load_pem_public_key evp keys can_read fs path ≡ keys.read_pem pem
  unfolding load_pem_public_key
  loaded_key fs path pem e = rw e refl

  opened_file :
      (fs : Files) (path pem : Text)
      → open_file can_read fs path ≡ some pem
      → (can_read path ≡ true) × (fs path ≡ some pem)
  opened_file fs path pem e = ground arith

  accepts :
      (fs : Files) (content signature path pem raw : Text) (key : K)
      → is_empty content ≡ false
      → is_empty signature ≡ false
      → is_valid_signature_format signature ≡ true
      → open_file can_read fs path ≡ some pem
      → load_pem_public_key evp keys can_read fs path ≡ some key
      → keys.decode_base64 signature ≡ some raw
      → is_empty raw ≡ false
      → verify_ecdsa_signature evp keys can_read key content raw ≡ true
      → is_signed (verify_signature evp keys can_read fs content signature path).status ≡ true
  unfolding verify_signature
  accepts fs content signature path pem raw key a b c d e f g h = ground arith

  accepted :
      (fs : Files) (content signature path : Text)
      → is_signed (verify_signature evp keys can_read fs content signature path).status ≡ true
      → (pem : Text) × (key : K) × (raw : Text) × (is_empty content ≡ false)
        × (is_empty signature ≡ false)
        × (is_valid_signature_format signature ≡ true)
        × (open_file can_read fs path ≡ some pem)
        × (load_pem_public_key evp keys can_read fs path ≡ some key)
        × (keys.decode_base64 signature ≡ some raw)
        × (is_empty raw ≡ false)
        × (verify_ecdsa_signature evp keys can_read key content raw ≡ true)
  unfolding verify_signature
  accepted fs content signature path h = elim (Option-cases (open_file can_read fs path)) [
    | inl e ↦ absurd (ground arith)
    | inr (pem, e) ↦ elim (Option-cases (load_pem_public_key evp keys can_read fs path)) [
      | inl e1 ↦ absurd (ground arith)
      | inr (key, e1) ↦ elim (Option-cases (keys.decode_base64 signature)) [
        | inl e2 ↦ absurd (ground arith)
        | inr (raw, e2) ↦ (
          pem,
          key,
          raw,
          ground arith,
          ground arith,
          ground arith,
          e,
          e1,
          e2,
          ground arith,
          ground arith,
        )
      ]
    ]
  ]

  -- A signature is reported as valid exactly where the data and the signature are not empty, the
  -- signature holds base64 letters only and decodes to bytes, the key file can be read and parsed,
  -- and the key verifies the decoded signature on the data.
  pub verify_signature_iff :
      (fs : Files) (content signature path : Text)
      → (is_signed (verify_signature evp keys can_read fs content signature path).status ≡ true)
        ↔ IsSigned fs content signature path
  verify_signature_iff fs content signature path = (to, of)
    where
      to :
          is_signed (verify_signature evp keys can_read fs content signature path).status ≡ true
          → IsSigned fs content signature path
      to h =
          let (pem, key, raw, full, signed, format, open1, loaded, decoded, bytes, verified) =
            accepted fs content signature path h in
          let (v, v1, a, b, c) = ecdsa_parts key content raw verified in
          let (readable, stored) = opened_file fs path pem open1 in
          let letters : all (contains base64_chars) signature ≡ true =
            ground (arith, is_valid_signature_format_lem signature) in
          signed_by pem raw key v v1 full signed letters readable stored
            (sym (loaded_key fs path pem open1) ∙ loaded) decoded bytes a b c

      of :
          IsSigned fs content signature path
          → is_signed (verify_signature evp keys can_read fs content signature path).status ≡ true
      of
            (signed_by pem raw key v v1 full signed letters readable stored loaded decoded bytes a b
              c) =
          let open1 : open_file can_read fs path ≡ some pem = rw (readable, stored) refl in
          accepts fs content signature path pem raw key full signed
            (is_valid_signature_format_lem signature ∙ rw (signed, letters) refl) open1
            (loaded_key fs path pem open1 ∙ loaded) decoded bytes
            (ecdsa_true key content raw v v1 a b c)

  -- A signed file is a file that can be opened and whose content is signed.
  pub verify_file_signature_lem :
      (fs : Files) (file_path content signature path : Text)
      → open_file can_read fs file_path ≡ some content
      → verify_file_signature evp keys can_read fs file_path signature path
        ≡ verify_signature evp keys can_read fs content signature path
  unfolding verify_file_signature
  verify_file_signature_lem fs file_path content signature path e =
      rw (e, verify_file_signature) refl
