-- ===== src/Validation.antt =====
-- `IntegrityValidator` (include/validation/integrity_validator.h,
-- src/validation/integrity_validator.cpp). Error messages are left out.
pub mod Digest
pub mod Verdict
pub mod Tests
use embedded_linux_ota.Prelude.{
  ℕ, zero, suc, ◌+◌, ◌-◌, ◌/◌, ◌%◌, Bool, true, false, not, ◌&&◌, ◌||◌, [], ◌∷◌, ◌++◌, Option, none,
  some, ◌>>=◌, ◌==◌, ltb, leb, if◌then◌else◌, get_or, length, take, drop, all,
}
use embedded_linux_ota.Text.Decimal.{is_c_space}
use embedded_linux_ota.Text.{Text, codes, text_eq, is_empty, is_digit}
use embedded_linux_ota.Fs.{Files}

pub data ValidationStatus : Type 0 where
  valid file_not_found file_not_readable file_not_regular invalid_file_type : ValidationStatus
  size_mismatch invalid_hash_format hash_mismatch hash_calculation_error metadata_error :
      ValidationStatus

abbrev pub validation_status_to_string : ValidationStatus → Text
validation_status_to_string valid = codes "VALID"
validation_status_to_string file_not_found = codes "FILE_NOT_FOUND"
validation_status_to_string file_not_readable = codes "FILE_NOT_READABLE"
validation_status_to_string file_not_regular = codes "FILE_NOT_REGULAR"
validation_status_to_string invalid_file_type = codes "INVALID_FILE_TYPE"
validation_status_to_string size_mismatch = codes "SIZE_MISMATCH"
validation_status_to_string invalid_hash_format = codes "INVALID_HASH_FORMAT"
validation_status_to_string hash_mismatch = codes "HASH_MISMATCH"
validation_status_to_string hash_calculation_error = codes "HASH_CALCULATION_ERROR"
validation_status_to_string metadata_error = codes "METADATA_ERROR"

-- A result; `actual_size` is -1 where the code leaves it unset.
pub record ValidationResult : Type 0 where
  pub status : ValidationStatus
  pub calculated_hash : Text
  pub actual_size : ℕ

-- `is_valid()`.
abbrev pub is_valid_result : ValidationStatus → Bool
is_valid_result valid = true
is_valid_result _ = false

-- The digest functions of OpenSSL on a context of type `S`; `none` stands for a failure, and `final`
-- gives the bytes of the digest.
pub record Evp (S : Type 0) : Type 0 where
  pub init : Option S
  pub update : S → Text → Option S
  pub final : S → Option Text

-- What the system says of a path that exists.
pub record Host : Type 0 where
  pub regular : Text → Bool
  pub readable : Text → Bool
  pub can_read : Text → Bool

abbrev pub read_buffer_size : ℕ
read_buffer_size = 8192

-- A size is the 64-bit pattern of an `int64_t`.
abbrev pub int64_limit : ℕ
int64_limit = 9223372036854775808

abbrev pub int64_modulus : ℕ
int64_modulus = 18446744073709551616

-- The pattern of -1.
abbrev pub no_size : ℕ
no_size = 18446744073709551615

abbrev hex_digit : ℕ → ℕ
hex_digit n = if ltb n 10 then b'0' + n else b'a' + (n - 10)

-- `std::hex` of the bytes, two digits for each.
unfoldable pub to_hex : Text → Text
to_hex [] = []
to_hex (b ∷ bs) = hex_digit (b / 16) ∷ hex_digit (b % 16) ∷ to_hex bs

module _ {S : Type 0} (evp : Evp S) where
  -- After the loop: the rest, if there is any.
  abbrev pub update_rest : S → Text → Option S
  update_rest s [] = some s
  update_rest s (c ∷ rest) = evp.update s (c ∷ rest)

  -- The loop over full buffers of `size` bytes; `fuel` is at least the number of those left.
  unfoldable pub update_chunks : ℕ → ℕ → S → Text → Option S
  update_chunks size zero s rest = update_rest s rest
  update_chunks size (suc fuel) s rest = elim (leb size (length rest)) [
    | false ↦ update_rest s rest
    | true ↦ do s1 ← evp.update s (take size rest); update_chunks size fuel s1 (drop size rest)
  ]

  -- `calculate_sha256_incremental`, by the size of its buffer; the empty text stands for a failure.
  unfoldable pub sha256_in_buffers : ℕ → Host → Files → Text → Text
  unfolding update_chunks to_hex
  sha256_in_buffers size host files path =
      if not (host.can_read path)
      then []
      else get_or [] (do
        content ← files path
        s ← evp.init
        s1 ← update_chunks size (length content) s content
        digest ← evp.final s1
        some (to_hex digest))

  abbrev pub calculate_sha256 : Host → Files → Text → Text
  calculate_sha256 = sha256_in_buffers read_buffer_size

abbrev is_upper : ℕ → Bool
is_upper c = leb b'A' c && leb c b'Z'

-- `std::tolower`.
abbrev pub to_lower : ℕ → ℕ
to_lower c = if is_upper c then c + 32 else c

unfoldable pub normalize_hash : Text → Text
normalize_hash [] = []
normalize_hash (c ∷ s) =
    let rest = normalize_hash s in if is_c_space c then rest else to_lower c ∷ rest

-- `std::isxdigit`.
abbrev pub is_hex : ℕ → Bool
is_hex c = is_digit c || (leb b'a' c && leb c b'f') || (leb b'A' c && leb c b'F')

abbrev pub is_valid_sha256_format : Text → Bool
is_valid_sha256_format hash = length hash == 64 && all is_hex hash

module _ {S : Type 0} (evp : Evp S) (host : Host) (files : Files) where
  abbrev result_of : ValidationStatus → Text → ℕ → ValidationResult
  result_of status hash size = record {
    status = status;
    calculated_hash = hash;
    actual_size = size;
  }

  -- The part of `validate_file` that has the size of the file.
  unfoldable pub validate_content : Text → Text → ℕ → ℕ → ValidationResult
  unfolding sha256_in_buffers normalize_hash text_eq
  validate_content path expected_hash expected_size actual_size =
      let hash = calculate_sha256 evp host files path in
      let normalized = normalize_hash expected_hash in
      if ltb expected_size int64_limit && not (actual_size == expected_size)
      then result_of size_mismatch [] actual_size
      else if not (is_valid_sha256_format normalized)
      then result_of invalid_hash_format [] actual_size
      else if is_empty hash
      then result_of hash_calculation_error [] actual_size
      else if not (text_eq hash normalized)
      then result_of hash_mismatch hash actual_size
      else result_of valid hash actual_size

  unfoldable pub validate_file : Text → Text → ℕ → ValidationResult
  unfolding validate_content
  validate_file path expected_hash expected_size = elim (files path) [
    | none ↦ result_of file_not_found [] no_size
    | some content ↦
        if not (host.regular path)
        then result_of file_not_regular [] no_size
        else if not (host.readable path)
        then result_of file_not_readable [] no_size
        else validate_content path expected_hash expected_size (length content % int64_modulus)
  ]

  unfoldable pub verify_sha256 : Text → Text → Bool
  unfolding validate_file
  verify_sha256 path expected_hash =
      is_valid_result (validate_file path expected_hash no_size).status
