-- ===== src/Installation/Tests.antt =====
-- An installation on concrete files.
use embedded_linux_ota.Prelude.{
  true, false, [], ◌∷◌, ◌++◌, none, some, ◌≡◌, ◌≢◌, refl, get_or, if◌then◌else◌,
}
use embedded_linux_ota.Text.{Text, codes, text_eq, is_empty, strip_prefix}
use embedded_linux_ota.Fs.{Files, Env, rename_file, write_file}
use embedded_linux_ota.Fs.Examples.{good_env, good_env-IsHealthy}
use embedded_linux_ota.Validation.{
  is_valid_result, normalize_hash, validate_file, verify_sha256, to_hex,
}
use embedded_linux_ota.Validation.Digest.{sha256_of}
use embedded_linux_ota.Validation.Tests.{first_bytes, first_bytes-IsEvp, plain_host, expected}
use embedded_linux_ota.Installation.{
  installed, InstallConfig, InstallInfo, System, starts_with_slash, validate_path,
}
use embedded_linux_ota.Installation.Install.{
  staging_path_of, sync_and_verify, verify_and_place, install, create_staging_dir, check_disk_space,
}
use embedded_linux_ota.Installation.Apart.{IsApart}
use embedded_linux_ota.Installation.Loading.{load_installation_state, cleanup_install_target}
use embedded_linux_ota.Installation.Outcome.{
  install-installed, sync_and_verify_keeps, verify_and_place_rejects,
}
use embedded_linux_ota.Installation.Paths.{validate_path_lem}
use embedded_linux_ota.Installation.Recorded.{install-stored}
use embedded_linux_ota.Installation.Safe.{is_safe_path, is_safe_path_absolute}
use embedded_linux_ota.Installation.Success.{
  IsUncancelled, IsReady, IsReadable, IsExpected, install_ok,
}

abbrev config : InstallConfig
config = record {
  staging_dir = codes "/s";
  install_target = codes "/t";
  state_dir = codes "/d";
  min_free_space_mb = 0;
}

abbrev pub plain_system : System
plain_system = record {
  entries = λ fs dir. some (codes "image.bin" ∷ []);
  can_unlink = λ path. true;
  has_dir = λ path. true;
  syncs = λ path. true;
  available = λ path. some 1000000000;
}

abbrev info : InstallInfo
info = record {
  version = codes "1";
  image_path = codes "/i";
  expected_sha256 = expected;
  expected_size = 5;
}

-- Only the image is there.
abbrev pub disk : Files
disk path = if text_eq path (codes "/i") then some (codes "image") else none

apart : IsApart config (codes "1")
unfolding text_eq
apart = record { staged = λ name. refl; state = refl }

install_done :
    (install first_bytes good_env plain_host plain_system config none [] info disk).1.status
    ≡ installed
unfolding install validate_path sync_and_verify verify_and_place rename_file write_file text_eq
    verify_sha256 strip_prefix
install_done = refl

install-installed_example :
    (content : Text) × ((install first_bytes good_env plain_host plain_system config none [] info
          disk).0
        (codes "/t/1/image.bin")
      ≡ some content)
    × (get_or [] (sha256_of first_bytes content) ≡ normalize_hash expected)
install-installed_example =
    install-installed first_bytes good_env plain_host plain_system config none [] info disk
      first_bytes-IsEvp refl apart install_done

-- A file with other bytes lies in the target.
abbrev bad_disk : Files
bad_disk path = if text_eq path (codes "/t/1/image.bin") then some (codes "imagx") else none

sync_and_verify_keeps_example :
    (sync_and_verify first_bytes good_env plain_host plain_system config none [] info bad_disk).0
      (codes "/t/1/image.bin")
    ≡ some (codes "imagx")
unfolding text_eq
sync_and_verify_keeps_example =
    sync_and_verify_keeps first_bytes good_env plain_host plain_system config none [] info bad_disk
      apart

abbrev bad_staged : Files
bad_staged path = if text_eq path (codes "/s/1/image.bin") then some (codes "imagx") else none

bad_found :
    is_valid_result
      (validate_file first_bytes plain_host bad_staged
        (staging_path_of config (codes "1"))
        expected
        5).status
    ≡ false
unfolding validate_file text_eq
bad_found = refl

verify_and_place_rejects_example :
    ((verify_and_place first_bytes good_env plain_host plain_system config none [] info
          bad_staged).0
        (codes "/t/1/image.bin")
      ≡ none)
    × ((verify_and_place first_bytes good_env plain_host plain_system config none [] info
          bad_staged).1.status
        ≢ installed)
unfolding text_eq
verify_and_place_rejects_example =
    verify_and_place_rejects first_bytes good_env plain_host plain_system config none [] info
      bad_staged apart bad_found

version_accepted : validate_path (codes "1.2.0") ≡ true
unfolding validate_path strip_prefix
version_accepted = refl

validate_path_lem_example :
    (is_empty (codes "1.2.0") ≡ false)
    × (starts_with_slash (codes "1.2.0") ≡ false)
    × ((p q : Text) → codes "1.2.0" ≢ p ++ (codes ".." ++ q))
    × ((p q : Text) → codes "1.2.0" ≢ p ++ (codes "//" ++ q))
    × ((p q : Text) → codes "1.2.0" ≢ p ++ (0 ∷ q))
validate_path_lem_example = validate_path_lem (codes "1.2.0") version_accepted

-- The installed state is saved and loaded; the cleanup of the target removes the image.
state_loaded :
    (load_installation_state plain_host config
      (codes "1")
      (install first_bytes good_env plain_host plain_system config none [] info disk).0).status
    ≡ codes "installed"
unfolding load_installation_state install validate_path sync_and_verify verify_and_place rename_file
    write_file text_eq verify_sha256 strip_prefix
state_loaded = refl

target_cleaned :
    cleanup_install_target good_env plain_host plain_system config
      (codes "1")
      bad_disk
      (codes "/t/1/image.bin")
    ≡ none
unfolding cleanup_install_target validate_path strip_prefix text_eq
target_cleaned = refl

is_uncancelled : IsUncancelled first_bytes good_env plain_host plain_system config none [] info
is_uncancelled = record {
  at0 = refl;
  at10 = refl;
  at20 = refl;
  at50 = refl;
  at70 = refl;
  at85 = refl;
  at90 = refl;
}

is_ready : IsReady first_bytes good_env plain_host plain_system config none [] info (codes "image")
unfolding create_staging_dir check_disk_space
is_ready = record { staging = refl; target = refl; place = refl; synced = refl; space = refl }

is_expected :
    IsExpected first_bytes good_env plain_host plain_system config none [] info (codes "image")
unfolding to_hex normalize_hash
is_expected = record { sized = refl; digest = refl; well_formed = refl }

is_readable :
    (path : Text) → IsReadable first_bytes good_env plain_host plain_system config none [] info path
is_readable path = record { regular = refl; readable = refl; can_read = refl }

is_safe : validate_path (codes "1") ≡ true
unfolding validate_path strip_prefix
is_safe = refl

disk_image : disk (codes "/i") ≡ some (codes "image")
unfolding text_eq
disk_image = refl

install_ok_example :
    (install first_bytes good_env plain_host plain_system config none [] info disk).1.status
    ≡ installed
install_ok_example =
    install_ok first_bytes good_env plain_host plain_system config none [] info good_env-IsHealthy
      is_uncancelled first_bytes-IsEvp (codes "image") is_ready is_expected
      (is_readable (codes "/s/1/image.bin")) (is_readable (codes "/t/1/image.bin")) disk refl
      is_safe refl refl disk_image

is_safe_path_absolute_instance :
    is_safe_path (λ path. some path) (codes "/var/lib/ota") (codes "1.0.0") ≡ false
is_safe_path_absolute_instance =
    is_safe_path_absolute (λ path. some path) (codes "/var/lib/ota") (codes "1.0.0") refl

safe_relative : is_safe_path (λ path. some path) (codes "ota") (codes "1.0.0") ≡ true
unfolding is_safe_path strip_prefix
safe_relative = refl

state_file_apart :
    (name : Text) → text_eq (codes "/s/1/" ++ name) (codes "/d/installation_1.json") ≡ false
unfolding text_eq
state_file_apart name = refl

-- A disk that is full when the state is written: the installation is reported all the same.
abbrev lossy_env : Env
lossy_env = record good_env {
  stored = λ path content. if text_eq path (codes "/d/installation_1.json") then [] else content;
}

install_lossy :
    (install first_bytes lossy_env plain_host plain_system config none [] info disk).1.status
    ≡ installed
unfolding install validate_path sync_and_verify verify_and_place rename_file write_file text_eq
    verify_sha256 strip_prefix
install_lossy = refl

install-stored_example :
    (install first_bytes lossy_env plain_host plain_system config none [] info disk).0
      (codes "/d/installation_1.json")
    ≡ some []
unfolding text_eq
install-stored_example =
    install-stored first_bytes lossy_env plain_host plain_system config none [] info disk
      state_file_apart install_lossy
