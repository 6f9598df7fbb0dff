-- ===== src/Program/Cli/Installed.antt =====
-- What the exit code of the command `install` says (src/cli_main.cpp).
use embedded_linux_ota.Prelude.{
  ℕ, true, false, ◌||◌, [], ◌++◌, some, ◌≡◌, refl, arith, inl, inr, append_assoc, Bool-cases,
  get_or,
}
use embedded_linux_ota.Text.{Text, codes, text_eq, is_empty}
use embedded_linux_ota.Fs.{Files, Env}
use embedded_linux_ota.Text.Search.{text_eq-append}
use embedded_linux_ota.Validation.{Evp, Host, normalize_hash}
use embedded_linux_ota.Validation.Digest.{IsEvp, sha256_of}
use embedded_linux_ota.Installation.{is_installed, InstallStatus, installed, System}
use embedded_linux_ota.Installation.Install.{
  staging_dir_of, final_path_of, state_file_of, state_of, state_to_text, install,
}
use embedded_linux_ota.Installation.Apart.{IsApart}
use embedded_linux_ota.Installation.Outcome.{install-installed}
use embedded_linux_ota.Installation.Recorded.{install-stored}
use embedded_linux_ota.Program.Cli.{CliOptions}
use embedded_linux_ota.Program.Cli.Release.{
  exit_of, cli_install_config, cli_install_info, install_command,
}

-- Where the image and the state lie below the state directory.
abbrev below_target : Text → Text
below_target version = codes "/install-target/" ++ (version ++ codes "/image.bin")

abbrev below_state : Text → Text
below_state version = codes "/state/installation_" ++ (version ++ codes ".json")

module _ {S : Type 0} (evp : Evp S) (host : Host) (o : CliOptions) (version : Text) where
  image_at :
      final_path_of (cli_install_config evp host o) version ≡ o.state_dir ++ below_target version
  image_at = simp append_assoc

  state_at :
      state_file_of (cli_install_config evp host o) version ≡ o.state_dir ++ below_state version
  state_at = simp append_assoc

  staged_at :
      (name : Text)
      → staging_dir_of (cli_install_config evp host o) version ++ (codes "/" ++ name)
        ≡ o.state_dir ++ (codes "/staging/" ++ (version ++ (codes "/" ++ name)))
  staged_at name = simp append_assoc

  -- The staging directory, the target and the file of the state are apart in the tool.
  staged-state :
      (name : Text)
      → text_eq
          (staging_dir_of (cli_install_config evp host o) version ++ (codes "/" ++ name))
          (state_file_of (cli_install_config evp host o) version)
        ≡ false
  unfolding text_eq
  staged-state name =
      rw (staged_at name, state_at) (text_eq-append o.state_dir _ (below_state version))

  target-IsApart : IsApart (cli_install_config evp host o) version
  unfolding text_eq
  target-IsApart = record {
    staged =
        λ name. rw (staged_at name, image_at) (text_eq-append o.state_dir _ (below_target version));
    state = rw (state_at, image_at) (text_eq-append o.state_dir _ (below_target version));
  }

exit_of-is_installed : (s : InstallStatus) → exit_of (is_installed s) ≡ 0 → s ≡ installed
exit_of-is_installed s h = ground arith

module _ {S : Type 0} (evp : Evp S) (host : Host) (env : Env) (sys : System) (now : Text)
    (o : CliOptions) where
  -- What is true where the command `install` ends with 0: the image of the version lies in the
  -- target, and the file of the state holds what the system stores of the text of the state.
  pub record IsInstalled (fs fs1 : Files) : Type 0 where
    pub content : Text
    pub placed : fs1 (final_path_of (cli_install_config evp host o) o.version) ≡ some content
    pub digest : get_or [] (sha256_of evp content) ≡ normalize_hash o.expected_hash
    pub recorded :
        fs1 (state_file_of (cli_install_config evp host o) o.version)
        ≡ some (
            env.stored (state_file_of (cli_install_config evp host o) o.version) (
              state_to_text env host sys
                (state_of (cli_install_config evp host o) now (cli_install_info evp host o fs))))

  install_command_is :
      (fs : Files)
      → (install_command evp host env sys now o fs).1 ≡ 0
      → (let r =
            install evp env host sys
              (cli_install_config evp host o)
              (some (λ percent. true))
              now
              (cli_install_info evp host o fs)
              fs in
          (r.1.status ≡ installed) × (r.0 ≡ (install_command evp host env sys now o fs).0))
  unfolding install_command
  install_command_is fs h =
      let r =
        install evp env host sys (cli_install_config evp host o) (some (λ percent. true)) now
          (cli_install_info evp host o fs) fs in
      elim (Bool-cases (is_empty o.image_path || is_empty o.version || is_empty o.expected_hash)) [
        | inl e ↦ let ended : ◌≡◌ {A = ℕ} 1 0 = rw (e, install_command) at h in absurd (omega arith)
        | inr e ↦ (
          exit_of-is_installed r.1.status (rw (e, install_command) at h),
          rw (e, install_command) refl,
        )
      ]

  -- With a digest that may be fed in pieces, where the image in the target can be read, the command
  -- `install` ends with 0 only where the target then holds an image with the expected hash, but for
  -- case and spaces, and the file of the state holds what the system stores of the state of this
  -- installation, all of it or not.
  pub install_command-IsInstalled :
      (fs : Files)
      → IsEvp evp
      → host.can_read (final_path_of (cli_install_config evp host o) o.version) ≡ true
      → (install_command evp host env sys now o fs).1 ≡ 0
      → IsInstalled fs (install_command evp host env sys now o fs).0
  install_command-IsInstalled fs laws image h =
      let config = cli_install_config evp host o in
      let info = cli_install_info evp host o fs in
      let (ok, same) = install_command_is fs h in
      let (content, placed, digest) =
        install-installed evp env host sys config (some (λ percent. true)) now info fs laws image
          (target-IsApart evp host o o.version) ok in
      record {
        content = content;
        placed = rw (← same) placed;
        digest = digest;
        recorded = rw (← same) (
            install-stored evp env host sys config (some (λ percent. true)) now info fs
              (staged-state evp host o o.version) ok);
      }
