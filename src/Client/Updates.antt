-- ===== src/Client/Updates.antt =====
-- `UpdateManager` (include/client/update_manager.h, src/client/update_manager.cpp).
use embedded_linux_ota.Prelude.{
  ℕ, ◌+◌, ◌%◌, Bool, true, false, not, [], ◌++◌, Option, none, some, ◌>>=◌, ltb, if◌then◌else◌,
}
use embedded_linux_ota.Text.{Text, codes, text_eq, is_empty}
use embedded_linux_ota.Text.Decimal.{int_limit, int_modulus}
use embedded_linux_ota.Text.Decimal.Stream.{read_int, skip_char}
use embedded_linux_ota.Http.{HttpResponse}
use embedded_linux_ota.Client.{
  UpdateMetadata, new_metadata, parse_update_response, get_validation_error,
}

pub data UpdateCheckResult : Type 0 where
  update_available no_update incompatible error : UpdateCheckResult

pub record UpdateInfo : Type 0 where
  pub result : UpdateCheckResult
  pub metadata : UpdateMetadata
  pub error_message : Text

pub record DeviceConfig : Type 0 where
  pub device_id : Text
  pub hardware_version : Text
  pub software_version : Text
  pub active_slot : Text

pub record Version : Type 0 where
  pub major : ℕ
  pub minor : ℕ
  pub patch : ℕ

-- The next number of the stream, 0 where the stream has failed.
abbrev pub next_int : Option Text → ℕ × Option Text
next_int none = (0, none)
next_int (some s) = read_int s

-- `ss >> major >> dot >> minor >> dot >> patch`.
unfoldable pub parse_version : Text → Version
unfolding read_int skip_char
parse_version v =
    let (major, r1) = read_int v in
    let (minor, r2) = next_int (r1 >>= skip_char) in
    record { major = major; minor = minor; patch = (next_int (r2 >>= skip_char)).0 }

-- `<` of two `int`s by their patterns.
abbrev pub int_ltb : ℕ → ℕ → Bool
int_ltb a b = ltb ((a + int_limit) % int_modulus) ((b + int_limit) % int_modulus)

-- `<` of two tuples.
abbrev pub version_ltb : Version → Version → Bool
version_ltb v w =
    if int_ltb v.major w.major
    then true
    else if int_ltb w.major v.major
    then false
    else if int_ltb v.minor w.minor
    then true
    else if int_ltb w.minor v.minor
    then false
    else int_ltb v.patch w.patch

unfoldable pub compare_versions : Text → Text → Bool
unfolding parse_version
compare_versions v1 v2 = version_ltb (parse_version v1) (parse_version v2)

abbrev failed_check : Text → UpdateInfo
failed_check message = record { result = error; metadata = new_metadata; error_message = message }

-- `check_for_update`, from the parsed answer on.
unfoldable pub judge : DeviceConfig → UpdateMetadata → UpdateInfo
unfolding get_validation_error text_eq compare_versions
judge device m =
    let validation_error = get_validation_error m in
    if not m.update_available
    then record { result = no_update; metadata = m; error_message = [] }
    else if not (is_empty validation_error)
    then failed_check (codes "Invalid metadata: " ++ validation_error)
    else if not (text_eq device.hardware_version m.hardware_version)
    then record {
      result = incompatible;
      metadata = new_metadata;
      error_message =
          codes "Hardware version mismatch: device="
          ++ (device.hardware_version ++ (codes " release=" ++ m.hardware_version));
    }
    else if not (compare_versions device.software_version m.version)
    then record { result = no_update; metadata = m; error_message = [] }
    else record { result = update_available; metadata = m; error_message = [] }

-- The path that is asked for.
abbrev pub request_path : DeviceConfig → Text
request_path device =
    codes "/api/v1/update?device_id="
    ++ (device.device_id
        ++ (codes "&hardware_version="
            ++ (device.hardware_version ++ (codes "&current_version=" ++ device.software_version))))

-- `check_for_update`; `get` is the HTTP client at the configured server.
unfoldable pub check_for_update : (Text → HttpResponse) → Text → DeviceConfig → UpdateInfo
unfolding parse_update_response judge
check_for_update get server_url device =
    let response = get (request_path device) in
    if is_empty server_url
    then failed_check (codes "Server URL not configured")
    else if not response.is_success
    then failed_check (codes "Failed to connect to server: " ++ response.error)
    else elim (parse_update_response response.body) [
      | none ↦ failed_check (codes "Failed to parse server response")
      | some m ↦ judge device m
    ]
