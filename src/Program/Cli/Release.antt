-- ===== src/Program/Cli/Release.antt =====
-- The commands `verify`, `verify-signature`, `install`, `check` and `download` (src/cli_main.cpp).
-- A command gives its exit code, and the files where it changes them.
use embedded_linux_ota.Prelude.{
  ℕ, ◌%◌, Bool, true, false, not, ◌||◌, [], ◌++◌, Option, none, some, ◌>>=◌, if◌then◌else◌, get_or,
  length,
}
use embedded_linux_ota.Text.{Text, codes, is_empty}
use embedded_linux_ota.Fs.{Files, Env}
use embedded_linux_ota.Validation.{
  Evp, Host, is_valid_result, validate_file, no_size, int64_modulus,
}
use embedded_linux_ota.Security.{Keys, is_signed, verify_signature}
use embedded_linux_ota.Installation.{is_installed, InstallConfig, InstallInfo, System}
use embedded_linux_ota.Installation.Install.{install}
use embedded_linux_ota.Device.{load_config, validate_config, open_file}
use embedded_linux_ota.Client.Updates.{
  DeviceConfig, UpdateInfo, UpdateCheckResult, update_available,
}
use embedded_linux_ota.Http.{Curl}
use embedded_linux_ota.Client.Manager.{
  UpdateManager, new_manager, set_server_url, set_download_dir, set_device_config, check,
  download_update,
}
use embedded_linux_ota.Program.Cli.{CliOptions}

abbrev pub exit_of : Bool → ℕ
exit_of true = 0
exit_of false = 1

abbrev pub is_available : UpdateCheckResult → Bool
is_available update_available = true
is_available _ = false

module _ {S : Type 0} (evp : Evp S) (host : Host) where
  unfoldable pub verify_command : CliOptions → Files → ℕ
  unfolding validate_file
  verify_command o fs =
      if is_empty o.image_path || is_empty o.expected_hash
      then 1
      else exit_of
          (is_valid_result (validate_file evp host fs o.image_path o.expected_hash no_size).status)

  -- `encode` is OpenSSL's base64, `canonicalize` what the Python interpreter prints for the text of
  -- a metadata file, empty where it fails.
  unfoldable pub verify_signature_command :
      {K V : Type 0} → Keys K V → (Text → Text) → (Text → Text) → CliOptions → Files → ℕ
  unfolding verify_signature
  verify_signature_command keys encode canonicalize o fs =
      let metadata =
        get_or [] (open_file host.can_read fs (o.release_dir ++ codes "/metadata.json")) in
      if is_empty o.release_dir
      then 1
      else if is_empty metadata
      then 1
      else elim (open_file host.can_read fs (o.release_dir ++ codes "/metadata.sig")) [
        | none ↦ 1
        | some signature ↦ exit_of (
            is_signed
              (verify_signature evp keys host.can_read fs (canonicalize metadata) (encode signature)
                o.public_key_path).status)
      ]

  abbrev pub cli_install_config : CliOptions → InstallConfig
  cli_install_config o = record {
    staging_dir = o.state_dir ++ codes "/staging";
    install_target = o.state_dir ++ codes "/install-target";
    state_dir = o.state_dir ++ codes "/state";
    min_free_space_mb = 100;
  }

  -- The size is that of the image as it lies there, 0 where there is none.
  abbrev pub cli_install_info : CliOptions → Files → InstallInfo
  cli_install_info o fs = record {
    version = o.version;
    image_path = o.image_path;
    expected_sha256 = o.expected_hash;
    expected_size = elim (fs o.image_path) [
      | none ↦ 0
      | some content ↦ length content % int64_modulus
    ];
  }

  unfoldable pub install_command : Env → System → Text → CliOptions → Files → Files × ℕ
  unfolding install
  install_command env sys now o fs =
      let (fs1, result) =
        install evp env host sys (cli_install_config o) (some (λ percent. true)) now
          (cli_install_info o fs) fs in
      if is_empty o.image_path || is_empty o.version || is_empty o.expected_hash
      then (fs, 1)
      else (fs1, exit_of (is_installed result.status))

  -- The configuration, where it loads and is valid.
  abbrev pub valid_config : CliOptions → Files → Option DeviceConfig
  valid_config o fs = load_config host.can_read fs o.config_path >>= λ config.
      if validate_config config then some config else none

  abbrev pub cli_manager : CliOptions → DeviceConfig → UpdateManager
  cli_manager o config =
      set_device_config config
        (set_download_dir o.download_dir (set_server_url o.server_url new_manager))

  -- The exit code does not depend on the outcome of the check.
  unfoldable pub check_command : Curl → CliOptions → Files → ℕ × Option UpdateInfo
  unfolding load_config validate_config check
  check_command curl o fs = elim (valid_config o fs) [
    | none ↦ (1, none)
    | some config ↦ (0, some (check curl (cli_manager o config)))
  ]

  -- A rejected image stays where it was downloaded to.
  unfoldable pub download_and_validate :
      Env → (Text → Bool) → Curl → Bool → UpdateManager → UpdateInfo → Files → Files × ℕ
  unfolding download_update validate_file
  download_and_validate env can_remove curl has_dir manager info fs =
      let (fs1, result) =
        download_update env can_remove curl evp host manager has_dir info.metadata.version fs in
      if not result.success then (fs1, 1) else (
        fs1,
        exit_of (
            is_valid_result
              (validate_file evp host fs1 result.file_path info.metadata.sha256
                info.metadata.image_size).status),
      )

  unfoldable pub download_command :
      Env → (Text → Bool) → Curl → Bool → CliOptions → Files → Files × ℕ
  unfolding load_config validate_config check download_and_validate
  download_command env can_remove curl has_dir o fs = elim (valid_config o fs) [
    | none ↦ (fs, 1)
    | some config ↦
        let manager = cli_manager o config in
        let info = check curl manager in
        if not (is_available info.result)
        then (fs, 1)
        else download_and_validate env can_remove curl has_dir manager info fs
  ]
