-- ===== src/Validation/Tests.antt =====
-- The validator on a concrete digest and file.
use embedded_linux_ota.Prelude.{
  ℕ, zero, suc, true, [], ◌∷◌, ◌++◌, some, ◌≡◌, refl, sym, take, append_assoc, append-nil, ap,
}
use embedded_linux_ota.Text.{Text, codes}
use embedded_linux_ota.Fs.{Files}
use embedded_linux_ota.Validation.{
  Evp, Host, is_valid_result, to_hex, calculate_sha256, normalize_hash, validate_file,
}
use embedded_linux_ota.Validation.Digest.{
  IsEvp, sha256_in_buffers_lem, normalize_hash-normalize_hash,
}
use embedded_linux_ota.Validation.Verdict.{IsGenuine, validate_file_iff}

abbrev zeros : ℕ → Text
zeros zero = []
zeros (suc n) = 0 ∷ zeros n

-- In place of SHA-256: the first 32 bytes of the content.
abbrev pub first_bytes : Evp Text
first_bytes = record {
  init = some [];
  update = λ s x. some (s ++ x);
  final = λ s. some (take 32 (s ++ zeros 32));
}

pub first_bytes-IsEvp : IsEvp first_bytes
first_bytes-IsEvp = record {
  pieces = λ s x y. ap some (sym (append_assoc s x y));
  nothing = λ s. ap some (append-nil s);
}

abbrev pub plain_host : Host
plain_host = record { regular = λ path. true; readable = λ path. true; can_read = λ path. true }

abbrev image_files : Files
image_files path = some (codes "image")

sha256_in_buffers_lem_instance :
    calculate_sha256 first_bytes plain_host image_files (codes "f")
    ≡ to_hex (codes "image" ++ zeros 27)
unfolding to_hex
sha256_in_buffers_lem_instance =
    sha256_in_buffers_lem first_bytes first_bytes-IsEvp 8192 plain_host image_files (codes "f")
      (codes "image") refl refl

abbrev pub expected : Text
expected = codes "696D616765 000000000000000000000000000000000000000000000000000000\n"

validate_file_iff_example :
    ((is_valid_result
          (validate_file first_bytes plain_host image_files (codes "f") expected 5).status
        ≡ true)
      → ((content : Text) × IsGenuine first_bytes plain_host image_files
            (codes "f")
            expected
            5
            content))
    × (((content : Text) × IsGenuine first_bytes plain_host image_files
            (codes "f")
            expected
            5
            content)
        → (is_valid_result
              (validate_file first_bytes plain_host image_files (codes "f") expected 5).status
            ≡ true))
validate_file_iff_example =
    validate_file_iff first_bytes plain_host image_files (codes "f") expected 5 first_bytes-IsEvp
      refl

-- The file is found valid.
image_found_valid :
    is_valid_result (validate_file first_bytes plain_host image_files (codes "f") expected 5).status
    ≡ true
unfolding validate_file
image_found_valid = refl

hash_normalised_twice :
    normalize_hash (normalize_hash (codes "AB c\n")) ≡ normalize_hash (codes "AB c\n")
hash_normalised_twice = normalize_hash-normalize_hash (codes "AB c\n")
