-- ===== src/Program/Cli/Dispatch.antt =====
-- `main` of the command line tool (src/cli_main.cpp).
use embedded_linux_ota.Prelude.{ℕ, Bool, List, [], ◌∷◌, none, some, if◌then◌else◌}
use embedded_linux_ota.Text.{Text, codes, text_eq}
use embedded_linux_ota.Fs.{Files, Env}
use embedded_linux_ota.Validation.{Evp, Host}
use embedded_linux_ota.Security.{Keys}
use embedded_linux_ota.Installation.{System}
use embedded_linux_ota.Http.{Curl}
use embedded_linux_ota.Program.Cli.{CliOptions, default_cli_options, parse_options}
use embedded_linux_ota.Program.Cli.Release.{
  verify_command, verify_signature_command, install_command, check_command, download_command,
}
use embedded_linux_ota.Program.Cli.Boot.{slots_command, boot_command, bootloader_command}

-- The system, OpenSSL, libcurl and the Python interpreter, at the time of the call.
pub record World (S K V : Type 0) : Type 0 where
  pub env : Env
  pub host : Host
  pub system : System
  pub has_dir : Text → Bool
  pub can_remove : Text → Bool
  pub now : Text
  pub evp : Evp S
  pub keys : Keys K V
  pub encode : Text → Text
  pub canonicalize : Text → Text
  pub curl : Curl

module _ {S K V : Type 0} (world : World S K V) where
  -- The command, with its options and the words behind it; what it leaves and its exit code.
  unfoldable pub run_command : Text → CliOptions → List Text → Files → Files × ℕ
  unfolding text_eq verify_command verify_signature_command install_command check_command
      download_command slots_command boot_command bootloader_command
  run_command command o words fs =
      if text_eq command (codes "verify")
      then (fs, verify_command world.evp world.host o fs)
      else if text_eq command (codes "verify-signature")
      then (
        fs,
        verify_signature_command world.evp world.host world.keys world.encode world.canonicalize o
            fs,
      )
      else if text_eq command (codes "install")
      then install_command world.evp world.host world.env world.system world.now o fs
      else if text_eq command (codes "check")
      then (fs, (check_command world.evp world.host world.curl o fs).0)
      else if text_eq command (codes "download")
      then download_command world.evp world.host world.env world.can_remove world.curl
          (world.has_dir o.download_dir) o fs
      else if text_eq command (codes "status")
      then (fs, 0)
      else if text_eq command (codes "history")
      then (fs, 0)
      else if text_eq command (codes "slots")
      then ((slots_command world.env o words fs).0, 0)
      else if text_eq command (codes "boot")
      then boot_command world.env world.has_dir o words fs
      else if text_eq command (codes "bootloader")
      then bootloader_command world.env world.has_dir o words fs
      else (fs, 1)

  -- The words of the call behind the name of the program.
  unfoldable pub cli_main : List Text → Files → Files × ℕ
  unfolding parse_options run_command
  cli_main [] fs = (fs, 1)
  cli_main (command ∷ words) fs = elim (parse_options default_cli_options words) [
    | none ↦ (fs, 0)
    | some o ↦ run_command command o words fs
  ]
