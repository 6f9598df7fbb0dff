-- ===== src/Client/Tests.antt =====
-- Versions and an answer of the server.
use embedded_linux_ota.Prelude.{ℕ, zero, suc, ◌<◌, true, false, [], some, ◌≡◌, refl, arith, get_or}
use embedded_linux_ota.Fs.Examples.{good_env, empty_disk}
use embedded_linux_ota.Validation.Digest.{sha256_of}
use embedded_linux_ota.Validation.Tests.{first_bytes, first_bytes-IsEvp, plain_host}
use embedded_linux_ota.Http.Delivery.{ends}
use embedded_linux_ota.Http.Tests.{recovers}
use embedded_linux_ota.Client.Manager.{UpdateManager, new_manager, set_server_url, download_update}
use embedded_linux_ota.Client.Delivery.{Brings, temp_of, attempts_of, download_update_delivers}
use embedded_linux_ota.Text.{Text, codes, strip_prefix, text_eq}
use embedded_linux_ota.Http.{HttpResponse}
use embedded_linux_ota.Client.{parse_update_response}
use embedded_linux_ota.Client.Updates.{
  update_available, DeviceConfig, Version, compare_versions, request_path, check_for_update,
}
use embedded_linux_ota.Client.Order.{
  version_to_string, IsSmall, ◌≺◌, compare_versions_iff, compare_versions_asym, IsOffer,
  check_for_update-IsOffer,
}

abbrev old_version : Version
old_version = record { major = 1; minor = 9; patch = 0 }

abbrev new_version : Version
new_version = record { major = 1; minor = 10; patch = 0 }

old_version-IsSmall : IsSmall old_version
old_version-IsSmall = record { major = omega arith; minor = omega arith; patch = omega arith }

new_version-IsSmall : IsSmall new_version
new_version-IsSmall = record { major = omega arith; minor = omega arith; patch = omega arith }

compare_versions_iff_example :
    (compare_versions (version_to_string old_version) (version_to_string new_version) ≡ true
      → old_version ≺ new_version)
    × (old_version ≺ new_version
        → compare_versions (version_to_string old_version) (version_to_string new_version) ≡ true)
compare_versions_iff_example =
    compare_versions_iff old_version new_version old_version-IsSmall new_version-IsSmall

is_newer : compare_versions (codes "1.9.0") (codes "1.10.0") ≡ true
unfolding compare_versions
is_newer = refl

compare_versions_asym_instance : compare_versions (codes "1.10.0") (codes "1.9.0") ≡ false
compare_versions_asym_instance = compare_versions_asym (codes "1.9.0") (codes "1.10.0") is_newer

abbrev device : DeviceConfig
device = record {
  device_id = codes "d1";
  hardware_version = codes "hw-v1";
  software_version = codes "1.9.0";
  active_slot = codes "A";
}

abbrev answer : Text → HttpResponse
answer path = record {
  status_code = 200;
  is_success = true;
  body =
      codes
        "{\"update_available\": true, \"version\": \"1.10.0\", \"hardware_version\": \"hw-v1\", \"image\": \"i.bin\", \"size\": 12, \"sha256\": \"ab\"}";
  error = [];
}

is_offered : (check_for_update answer (codes "http://s") device).result ≡ update_available
unfolding check_for_update strip_prefix text_eq
is_offered = refl

check_for_update-IsOffer_example :
    (parse_update_response (answer (request_path device)).body
      ≡ some (check_for_update answer (codes "http://s") device).metadata)
    × IsOffer device (check_for_update answer (codes "http://s") device).metadata
check_for_update-IsOffer_example =
    check_for_update-IsOffer answer (codes "http://s") device is_offered

abbrev image_manager : UpdateManager
image_manager = set_server_url (codes "http://s") new_manager

recovers-Brings : Brings (attempts_of recovers image_manager (codes "1.10.0")) 2
recovers-Brings = record { delivered = refl; earlier = earlier }
  where
    earlier : (k : ℕ) → k < 2 → ends (attempts_of recovers image_manager (codes "1.10.0") k) ≡ false
    earlier zero h = refl
    earlier (suc zero) h = refl
    earlier (suc (suc k)) h = absurd (omega arith)

download_update_delivers_example :
    let (fs1, result) =
      download_update good_env
        (λ path. true)
        recovers
        first_bytes
        plain_host
        image_manager
        true
        (codes "1.10.0")
        empty_disk in
    (result.success ≡ true)
    × (result.file_path ≡ temp_of image_manager (codes "1.10.0"))
    × (fs1 (temp_of image_manager (codes "1.10.0")) ≡ some (codes "image"))
    × (result.sha256 ≡ get_or [] (sha256_of first_bytes (codes "image")))
download_update_delivers_example =
    download_update_delivers good_env (λ path. true) recovers first_bytes plain_host image_manager
      (codes "1.10.0") empty_disk 2 first_bytes-IsEvp refl refl refl (omega arith) recovers-Brings
      refl
