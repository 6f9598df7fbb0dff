-- ===== src/Validation/Verdict.antt =====
-- What a verdict of the validator says of the file.
use embedded_linux_ota.Prelude.{
  ℕ, ◌%◌, true, false, not, ◌&&◌, [], ◌∷◌, ◌↔◌, none, some, ◌≡◌, refl, sym, arith, ◌∙◌, get_or,
  length, ltb, ◌==◌, Option-cases, inl, inr,
}
use embedded_linux_ota.Text.{Text, text_eq, text_eq_iff, is_empty}
use embedded_linux_ota.Fs.{Files}
use embedded_linux_ota.Validation.{
  Evp, Host, is_valid_result, int64_limit, int64_modulus, read_buffer_size, calculate_sha256,
  normalize_hash, is_valid_sha256_format, validate_content, validate_file,
}
use embedded_linux_ota.Validation.Digest.{IsEvp, sha256_of, sha256_in_buffers_lem}

-- The file is there with this content, is regular, readable and of the size that is expected, if one
-- is, and the printed digest of its content is the expected hash but for case and spaces.
pub record IsGenuine {S : Type 0} (evp : Evp S) (host : Host) (files : Files) (path expected : Text)
    (size : ℕ) (content : Text) : Type 0 where
  pub present : files path ≡ some content
  pub regular : host.regular path ≡ true
  pub readable : host.readable path ≡ true
  pub sized : (ltb size int64_limit && not (length content % int64_modulus == size)) ≡ false
  pub digest : get_or [] (sha256_of evp content) ≡ normalize_hash expected
  pub well_formed : is_valid_sha256_format (normalize_hash expected) ≡ true

empty_differs :
    (hash expected : Text)
    → is_empty hash ≡ true
    → is_valid_sha256_format expected ≡ true
    → text_eq hash expected ≡ false
unfolding text_eq
empty_differs [] [] h k = ground arith
empty_differs [] (c ∷ e) h k = refl
empty_differs (c ∷ hash) e h k = ground arith

module _ {S : Type 0} (evp : Evp S) (host : Host) (files : Files) (path expected : Text)
    (size : ℕ) where
  content_valid :
      (actual : ℕ)
      → is_valid_result (validate_content evp host files path expected size actual).status ≡ (
          not (ltb size int64_limit && not (actual == size))
          && is_valid_sha256_format (normalize_hash expected)
          && text_eq (calculate_sha256 evp host files path) (normalize_hash expected))
  unfolding validate_content
  content_valid actual =
      ground (arith, empty_differs (calculate_sha256 evp host files path) (normalize_hash expected))

  file_checks :
      (content : Text)
      → files path ≡ some content
      → is_valid_result (validate_file evp host files path expected size).status ≡ (
          host.regular path
          && host.readable path
          && is_valid_result
              (validate_content evp host files path expected size
                (length content % int64_modulus)).status)
  unfolding validate_file
  file_checks content e = rw e (ground arith)

  missing :
      files path ≡ none
      → is_valid_result (validate_file evp host files path expected size).status ≡ false
  unfolding validate_file
  missing e = ground arith

  module _ (laws : IsEvp evp) (can_read : host.can_read path ≡ true) where
    content-IsGenuine :
        (content : Text)
        → files path ≡ some content
        → host.regular path ≡ true
        → host.readable path ≡ true
        → is_valid_result
            (validate_content evp host files path expected size
              (length content % int64_modulus)).status
          ≡ true
        → IsGenuine evp host files path expected size content
    content-IsGenuine content e r b h =
        let hash =
          sha256_in_buffers_lem evp laws read_buffer_size host files path content can_read e in
        let all_three = content_valid (length content % int64_modulus) in
        record {
          present = e;
          regular = r;
          readable = b;
          sized = ground arith;
          digest =
              sym hash
              ∙ (text_eq_iff (calculate_sha256 evp host files path) (normalize_hash expected)).0
                  (ground arith);
          well_formed = ground arith;
        }

    IsGenuine-content :
        (content : Text)
        → IsGenuine evp host files path expected size content
        → is_valid_result
            (validate_content evp host files path expected size
              (length content % int64_modulus)).status
          ≡ true
    IsGenuine-content content g =
        let hash =
          sha256_in_buffers_lem evp laws read_buffer_size host files path content can_read
            g.present in
        let same =
          (text_eq_iff (calculate_sha256 evp host files path) (normalize_hash expected)).1
            (hash ∙ g.digest) in
        ground (arith, content_valid (length content % int64_modulus), g.sized, g.well_formed)

  -- With a digest that may be fed in pieces, a file that can be read is found valid exactly when
  -- it is there, regular, readable, of the expected size if one is given, and the printed digest
  -- of its whole content is the expected hash, but for case and spaces.
  pub validate_file_iff :
      IsEvp evp
      → host.can_read path ≡ true
      → (is_valid_result (validate_file evp host files path expected size).status ≡ true)
        ↔ ((content : Text) × IsGenuine evp host files path expected size content)
  validate_file_iff laws can_read = (
    only-IsGenuine,
    λ (content, g). ground (
      arith,
      file_checks content g.present,
      g.regular,
      g.readable,
      IsGenuine-content laws can_read content g,
    ),
  )
    where
      only-IsGenuine :
          is_valid_result (validate_file evp host files path expected size).status ≡ true
          → (content : Text) × IsGenuine evp host files path expected size content
      only-IsGenuine h = elim (Option-cases (files path)) [
        | inl e ↦ absurd (ground (arith, missing e))
        | inr (content, e) ↦
            let checks = file_checks content e in
            (
              content,
              content-IsGenuine laws can_read content e (ground arith) (ground arith)
                  (ground arith),
            )
      ]
