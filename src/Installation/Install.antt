-- ===== src/Installation/Install.antt =====
-- The steps of an installation, and `install` itself.
use embedded_linux_ota.Prelude.{
  ℕ, ◌+◌, ◌*◌, ◌%◌, Bool, true, false, not, ◌&&◌, ◌||◌, List, [], ◌∷◌, ◌++◌, Option, none, some,
  ltb, leb, if◌then◌else◌, length,
}
use embedded_linux_ota.Text.{Text, codes, is_empty}
use embedded_linux_ota.Fs.{Files, Env, remove, rename_file, write_file, write_unflushed}
use embedded_linux_ota.Validation.{
  Evp, Host, int64_limit, int64_modulus, is_valid_result, validate_file, verify_sha256,
}
use embedded_linux_ota.Installation.{
  InstallStatus, installed, verification_failed, installation_failed, insufficient_space,
  path_traversal_detected, invalid_artifact, staging_failed, InstallConfig, InstallInfo,
  InstallResult, InstallationState, System, validate_path,
}

abbrev pub staging_dir_of : InstallConfig → Text → Text
staging_dir_of config version = config.staging_dir ++ (codes "/" ++ version)

abbrev pub staging_path_of : InstallConfig → Text → Text
staging_path_of config version = staging_dir_of config version ++ codes "/image.bin"

abbrev pub target_path_of : InstallConfig → Text → Text
target_path_of config version = config.install_target ++ (codes "/" ++ version)

abbrev pub final_path_of : InstallConfig → Text → Text
final_path_of config version = target_path_of config version ++ codes "/image.bin"

abbrev pub state_file_of : InstallConfig → Text → Text
state_file_of config version =
    config.state_dir ++ (codes "/installation_" ++ (version ++ codes ".json"))

-- The order of 64-bit patterns as signed numbers.
abbrev pub signed_rank : ℕ → ℕ
signed_rank n = (n + int64_limit) % int64_modulus

-- `expected_size > 0 ? expected_size : st_size`, doubled.
abbrev pub required_space : ℕ → ℕ → ℕ
required_space expected_size st_size =
    let size =
      if ltb 0 expected_size && ltb expected_size int64_limit then expected_size else st_size in
    size * 2 % int64_modulus

abbrev pub refuse : InstallStatus → Text → InstallResult
refuse status message = record {
  status = status;
  installed_path = [];
  calculated_sha256 = [];
  error_message = message;
}

abbrev pub cancelled : InstallResult
cancelled = refuse installation_failed (codes "Installation cancelled by user")

-- The state that is saved.
abbrev pub state_of : InstallConfig → Text → InstallInfo → InstallationState
state_of config now info = record {
  version = info.version;
  status = codes "installed";
  sha256 = info.expected_sha256;
  installed_at = now;
  target = target_path_of config info.version;
}

-- The answer of the callback; there may be none.
abbrev pub goes_on : Option (ℕ → Bool) → ℕ → Bool
goes_on none percent = true
goes_on (some progress) percent = progress percent

module _ (env : Env) (host : Host) (sys : System) where
  -- The loop over the names of a directory.
  unfoldable pub unlink_all : Text → List Text → Files → Files
  unlink_all dir [] fs = fs
  unlink_all dir (name ∷ names) fs =
      let path = dir ++ (codes "/" ++ name) in
      unlink_all dir names (if sys.can_unlink path then remove fs path else fs)

  -- `cleanup_staging` and `cleanup_install_target`, by the directory.
  unfoldable pub cleanup : Text → Text → Files → Files
  unfolding unlink_all validate_path
  cleanup dir version fs =
      if not (validate_path version)
      then fs
      else elim (sys.entries fs dir) [ none ↦ fs | some names ↦ unlink_all dir names fs ]

  unfoldable pub copy_to_staging : Text → Text → Files → Files × Bool
  unfolding write_file
  copy_to_staging source dest fs = elim (fs source) [
    | none ↦ (fs, false)
    | some content ↦
        if not (host.can_read source) then (fs, false) else write_file env dest content fs
  ]

  -- A rename, or else a copy, whose source is then removed.
  unfoldable pub finalize_installation : InstallConfig → Text → Files → Files × Bool
  unfolding rename_file copy_to_staging
  finalize_installation config version fs =
      let staging_path = staging_path_of config version in
      let final_path = final_path_of config version in
      let (renamed, moved) = rename_file env staging_path final_path fs in
      let (copied, good) = copy_to_staging staging_path final_path fs in
      if not (sys.has_dir config.install_target)
      then (fs, false)
      else if not (sys.has_dir (target_path_of config version))
      then (fs, false)
      else if moved
      then (renamed, true)
      else if good
      then (if sys.can_unlink staging_path then remove copied staging_path else copied, true)
      else (copied, false)

  abbrev pub state_to_text : InstallationState → Text
  state_to_text st =
      codes "{\n  \"version\": \""
      ++ (st.version
          ++ (codes "\",\n  \"status\": \""
              ++ (st.status
                  ++ (codes "\",\n  \"sha256\": \""
                      ++ (st.sha256
                          ++ (codes "\",\n  \"installed_at\": \""
                              ++ (st.installed_at
                                  ++ (codes "\",\n  \"target\": \""
                                      ++ (st.target ++ codes "\"\n}\n")))))))))

  -- Whether the state's directory can be made is not asked. The stream is asked before it is flushed.
  unfoldable pub save_installation_state : InstallConfig → InstallationState → Files → Files × Bool
  unfolding write_unflushed
  save_installation_state config st fs =
      write_unflushed env (state_file_of config st.version) (state_to_text st) fs

  abbrev available_at : Option ℕ → Text → Option ℕ
  available_at (some n) dir = some n
  available_at none dir = sys.available dir

  unfoldable pub check_disk_space : InstallConfig → ℕ → Bool
  check_disk_space config required =
      elim (available_at (sys.available config.install_target) config.staging_dir) [
        | none ↦ false
        | some n ↦
            leb (signed_rank ((required + config.min_free_space_mb * 1024 * 1024) % int64_modulus))
              (signed_rank (n % int64_modulus))
      ]

  unfoldable pub create_staging_dir : InstallConfig → Text → Bool
  create_staging_dir config version =
      sys.has_dir config.staging_dir && sys.has_dir (staging_dir_of config version)

module _ {S : Type 0} (evp : Evp S) (env : Env) (host : Host) (sys : System)
    (config : InstallConfig) where
  abbrev pub clean : InstallInfo → Files → Files
  clean info fs = cleanup env host sys (staging_dir_of config info.version) info.version fs

  -- `install` from "Synchronizing filesystem..." on: the target stays where it fails.
  unfoldable pub sync_and_verify :
      Option (ℕ → Bool) → Text → InstallInfo → Files → Files × InstallResult
  unfolding cleanup verify_sha256 save_installation_state
  sync_and_verify progress now info fs =
      let target_path = target_path_of config info.version in
      let final_path = final_path_of config info.version in
      let (saved, good) =
        save_installation_state env host sys config (state_of config now info) fs in
      if not (goes_on progress 85)
      then (fs, cancelled)
      else if not (sys.syncs target_path)
      then (fs, refuse installation_failed (codes "Failed to synchronize filesystem"))
      else if not (goes_on progress 90)
      then (fs, cancelled)
      else if not (verify_sha256 evp host fs final_path info.expected_sha256)
      then (fs, refuse verification_failed (codes "Post-installation verification failed"))
      else if not good
      then (saved, refuse installation_failed (codes "Failed to save installation state"))
      else (
        clean info saved,
        record {
          status = installed;
          installed_path = final_path;
          calculated_sha256 = info.expected_sha256;
          error_message = [];
        },
      )

  -- `install` from the copy in the staging directory on: a failure cleans that directory.
  unfoldable pub verify_and_place :
      Option (ℕ → Bool) → Text → InstallInfo → Files → Files × InstallResult
  unfolding validate_file finalize_installation sync_and_verify
  verify_and_place progress now info fs =
      let (placed, done) = finalize_installation env host sys config info.version fs in
      let staged =
        validate_file evp host fs (staging_path_of config info.version) info.expected_sha256
          info.expected_size in
      if not (goes_on progress 50)
      then (clean info fs, cancelled)
      else if not (is_valid_result staged.status)
      then (clean info fs, refuse verification_failed (codes "Staged artifact verification failed"))
      else if not (goes_on progress 70)
      then (clean info fs, cancelled)
      else if not done
      then (clean info placed, refuse installation_failed (codes "Failed to finalize installation"))
      else sync_and_verify progress now info placed

  -- `install` from the staging directory on.
  unfoldable pub stage : Option (ℕ → Bool) → Text → InstallInfo → Files → Files × InstallResult
  unfolding create_staging_dir copy_to_staging verify_and_place
  stage progress now info fs =
      let (copied, done) =
        copy_to_staging env host sys info.image_path (staging_path_of config info.version) fs in
      if not (goes_on progress 10)
      then (fs, cancelled)
      else if not (create_staging_dir env host sys config info.version)
      then (fs, refuse staging_failed (codes "Failed to create staging directory"))
      else if not (goes_on progress 20)
      then (clean info fs, cancelled)
      else if not done
      then (clean info copied, refuse staging_failed (codes "Failed to copy update to staging"))
      else verify_and_place progress now info copied

  -- `install` from the look at the image on; `content` is what the image holds, if it is there.
  unfoldable pub check_image :
      Option Text → Option (ℕ → Bool) → Text → InstallInfo → Files → Files × InstallResult
  unfolding check_disk_space stage
  check_image none progress now info fs =
      (fs, refuse invalid_artifact (codes "Image file not found: " ++ info.image_path))
  check_image (some content) progress now info fs =
      if not (host.regular info.image_path)
      then (fs, refuse invalid_artifact (codes "Image is not a regular file: " ++ info.image_path))
      else if not (
          check_disk_space env host sys config (required_space info.expected_size (length content)))
      then (fs, refuse insufficient_space (codes "Insufficient disk space for installation"))
      else stage progress now info fs

  -- `now` is the printed time.
  unfoldable pub install : Option (ℕ → Bool) → Text → InstallInfo → Files → Files × InstallResult
  unfolding validate_path check_image
  install progress now info fs =
      if not (goes_on progress 0)
      then (fs, cancelled)
      else if is_empty info.version || is_empty info.image_path
      then (
        fs,
        refuse invalid_artifact (codes "Invalid installation info: missing version or image path"),
      )
      else if not (validate_path info.version)
      then (
        fs,
        refuse path_traversal_detected (codes "Invalid version string: potential path traversal"),
      )
      else check_image (fs info.image_path) progress now info fs
