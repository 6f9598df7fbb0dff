-- ===== src/Installation.antt =====
-- `InstallManager` (include/installation/installer.h, src/installation/installer.cpp).
pub mod Install
pub mod Loading
pub mod Apart
pub mod Outcome
pub mod Paths
pub mod Success
pub mod Recorded
pub mod Safe
pub mod Tests
use embedded_linux_ota.Prelude.{
  ℕ, ◌+◌, ◌*◌, ◌/◌, ◌%◌, Bool, true, false, not, ◌&&◌, ◌||◌, List, [], ◌∷◌, ◌++◌, Option, none,
  some, ◌>>=◌, ◌==◌, ltb, leb, if◌then◌else◌, get_or, length,
}
use embedded_linux_ota.Text.{Text, codes, text_eq, is_empty, find_after, after_char, before_char}
use embedded_linux_ota.Fs.{Files, Env, put, remove, rename_file, write_file}
use embedded_linux_ota.Validation.{Host}

pub data InstallStatus : Type 0 where
  not_ready ready installing installed verification_failed installation_failed : InstallStatus
  insufficient_space permission_denied path_traversal_detected invalid_artifact : InstallStatus
  staging_failed : InstallStatus

abbrev pub install_status_to_string : InstallStatus → Text
install_status_to_string not_ready = codes "NOT_READY"
install_status_to_string ready = codes "READY"
install_status_to_string installing = codes "INSTALLING"
install_status_to_string installed = codes "INSTALLED"
install_status_to_string verification_failed = codes "VERIFICATION_FAILED"
install_status_to_string installation_failed = codes "INSTALLATION_FAILED"
install_status_to_string insufficient_space = codes "INSUFFICIENT_SPACE"
install_status_to_string permission_denied = codes "PERMISSION_DENIED"
install_status_to_string path_traversal_detected = codes "PATH_TRAVERSAL_DETECTED"
install_status_to_string invalid_artifact = codes "INVALID_ARTIFACT"
install_status_to_string staging_failed = codes "STAGING_FAILED"

pub record InstallConfig : Type 0 where
  pub staging_dir : Text
  pub install_target : Text
  pub state_dir : Text
  pub min_free_space_mb : ℕ

-- The fields of `InstallInfo` that `install` uses; a size is the 64-bit pattern of an `int64_t`.
pub record InstallInfo : Type 0 where
  pub version : Text
  pub image_path : Text
  pub expected_sha256 : Text
  pub expected_size : ℕ

pub record InstallResult : Type 0 where
  pub status : InstallStatus
  pub installed_path : Text
  pub calculated_sha256 : Text
  pub error_message : Text

-- `is_success()`.
abbrev pub is_installed : InstallStatus → Bool
is_installed installed = true
is_installed _ = false

pub record InstallationState : Type 0 where
  pub version : Text
  pub status : Text
  pub sha256 : Text
  pub installed_at : Text
  pub target : Text

-- What the system answers to the installer beyond `Env` and `Host`: the names in a directory, `none`
-- if it cannot be opened; whether a file can be removed; whether a directory is there or can be made;
-- whether a path can be synchronised; and the bytes available at a path.
pub record System : Type 0 where
  pub entries : Files → Text → Option (List Text)
  pub can_unlink : Text → Bool
  pub has_dir : Text → Bool
  pub syncs : Text → Bool
  pub available : Text → Option ℕ

abbrev pub get_default_config : InstallConfig
get_default_config = record {
  staging_dir = codes "/var/lib/ota/staging";
  install_target = codes "/var/lib/ota/install-target";
  state_dir = codes "/var/lib/ota/state";
  min_free_space_mb = 100;
}

abbrev pub starts_with_slash : Text → Bool
starts_with_slash [] = false
starts_with_slash (c ∷ s) = c == b'/'

abbrev pub contains : Text → Text → Bool
contains pat s = elim (find_after pat s) [ none ↦ false | some r ↦ true ]

unfoldable pub is_traversal_attempt : Text → Bool
unfolding find_after
is_traversal_attempt path =
    if contains (codes "..") path
    then true
    else if starts_with_slash path
    then true
    else contains (codes "//") path

unfoldable pub validate_path : Text → Bool
unfolding is_traversal_attempt find_after
validate_path path =
    if is_empty path
    then false
    else if is_traversal_attempt path
    then false
    else not (contains (0 ∷ []) path)
