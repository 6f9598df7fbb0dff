-- ===== src/Program/Cli/Tests.antt =====
-- The commands `download`, `install`, `verify-signature` and `boot` of the command line tool from end
-- to end.
use embedded_linux_ota.Prelude.{true, [], ◌∷◌, arith, some, none, ◌≡◌, ◌↔◌, refl, if◌then◌else◌}
use embedded_linux_ota.Text.{Text, codes, text_eq, find_after, strip_prefix}
use embedded_linux_ota.Fs.{Files}
use embedded_linux_ota.Fs.Examples.{good_env, good_env-IsHealthy}
use embedded_linux_ota.Validation.Tests.{first_bytes, first_bytes-IsEvp, plain_host, expected}
use embedded_linux_ota.Installation.Tests.{plain_system, disk}
use embedded_linux_ota.Security.Tests.{plain_keys}
use embedded_linux_ota.Slot.State.{SlotInfo, slot_a, slot_b, inactive}
use embedded_linux_ota.Slot.Manager.{metadata_fields, global_fields, load_slot_state}
use embedded_linux_ota.Json.{escape_json_string}
use embedded_linux_ota.Json.Document.{document}
use embedded_linux_ota.Boot.Bootloader.{SimulatedBootloader}
use embedded_linux_ota.Boot.Control.{
  SimulatedBootControl, new_control, boot_state_to_json, validate_boot_target,
}
use embedded_linux_ota.Program.Cli.Boot.{target_slot, boot_command}
use embedded_linux_ota.Program.Cli.BootCycle.{IsStored, control_file, slots_of, booted, boot_cycle}
use embedded_linux_ota.Device.Tests.{config_files}
use embedded_linux_ota.Http.{Curl}
use embedded_linux_ota.Http.Tests.{answers}
use embedded_linux_ota.Program.Cli.{CliOptions, default_cli_options}
use embedded_linux_ota.Program.Cli.Release.{
  download_command, install_command, verify_signature_command,
}
use embedded_linux_ota.Program.Cli.Installed.{IsInstalled, install_command-IsInstalled}
use embedded_linux_ota.Program.Cli.Signed.{IsSignedRelease, verify_signature_command_iff}
use embedded_linux_ota.Program.Cli.Accepted.{IsDownloaded, download_command-IsDownloaded}

abbrev offer : Text
offer =
    codes
      "{\"update_available\": true, \"version\": \"1.1.0\", \"hardware_version\": \"hw-v1\", \"image\": \"i.bin\", \"size\": 5, \"sha256\": \"696d616765000000000000000000000000000000000000000000000000000000\"}"

-- The server offers an image and has it.
abbrev server : Curl
server client url n = elim (find_after (codes "/releases/") url) [
  | none ↦ record (answers 200) { received = offer }
  | some rest ↦ answers 200
]

abbrev device_disk : Files
device_disk path = if text_eq path (codes "/etc/ota/device.conf") then config_files path else none

is_done :
    (download_command first_bytes plain_host good_env
      (λ path. true)
      server
      true
      default_cli_options
      device_disk).1
    ≡ 0
unfolding download_command find_after strip_prefix text_eq
is_done = refl

download_command-IsDownloaded_example :
    IsDownloaded first_bytes plain_host good_env
      (λ path. true)
      server
      true
      default_cli_options
      device_disk
      (download_command first_bytes plain_host good_env
        (λ path. true)
        server
        true
        default_cli_options
        device_disk).0
download_command-IsDownloaded_example =
    download_command-IsDownloaded first_bytes plain_host good_env (λ path. true) server true
      default_cli_options device_disk first_bytes-IsEvp is_done

abbrev install_options : CliOptions
install_options = record default_cli_options {
  image_path = codes "/i";
  version = codes "1.1.0";
  expected_hash = expected;
}

abbrev install_time : Text
install_time = codes "2024-01-01T00:00:00Z"

install_ended :
    (install_command first_bytes plain_host good_env plain_system install_time install_options
      disk).1
    ≡ 0
unfolding install_command text_eq strip_prefix
install_ended = refl

install_command-IsInstalled_example :
    IsInstalled first_bytes plain_host good_env plain_system install_time install_options disk
      (install_command first_bytes plain_host good_env plain_system install_time install_options
        disk).0
install_command-IsInstalled_example =
    install_command-IsInstalled first_bytes plain_host good_env plain_system install_time
      install_options disk first_bytes-IsEvp refl install_ended

abbrev signature_options : CliOptions
signature_options = record default_cli_options {
  release_dir = codes "/r";
  public_key_path = codes "/k";
}

abbrev release_files : Files
release_files path =
    if text_eq path (codes "/r/metadata.json")
    then some (codes "data")
    else if text_eq path (codes "/r/metadata.sig")
    then some (codes "keydata")
    else if text_eq path (codes "/k")
    then some (codes "key")
    else none

release_accepted :
    verify_signature_command first_bytes plain_host plain_keys
      (λ s. s)
      (λ s. s)
      signature_options
      release_files
    ≡ 0
unfolding verify_signature_command text_eq
release_accepted = refl

verify_signature_command_iff_example :
    (verify_signature_command first_bytes plain_host plain_keys
        (λ s. s)
        (λ s. s)
        signature_options
        release_files
      ≡ 0)
    ↔ IsSignedRelease first_bytes plain_host plain_keys
        (λ s. s)
        (λ s. s)
        signature_options
        release_files
verify_signature_command_iff_example =
    verify_signature_command_iff first_bytes plain_host plain_keys (λ s. s) (λ s. s)
      signature_options release_files

-- Slot B holds a version, and the boot control has booted nothing yet.
abbrev second_slot : SlotInfo
second_slot = record {
  slot_id = slot_b;
  version = codes "1.1.0";
  hardware_version = codes "hw-v1";
  state = inactive;
  sha256 = [];
  installed_at = [];
}

abbrev first_control : SimulatedBootControl SimulatedBootloader
first_control = new_control

abbrev boot_disk : Files
boot_disk path =
    if text_eq path (control_file default_cli_options)
    then some (boot_state_to_json first_control)
    else if text_eq path (codes "/var/lib/ota/slots/global.json")
    then some (document (global_fields slot_a))
    else if text_eq path (codes "/var/lib/ota/slots/slot-B/metadata.json")
    then some (document (metadata_fields second_slot))
    else none

boot_disk-IsStored : IsStored default_cli_options boot_disk first_control
unfolding text_eq
boot_disk-IsStored = record { stored = refl; small_a = omega arith; small_b = omega arith }

names_second : target_slot (codes "B") ≡ some slot_b
unfolding target_slot
names_second = refl

second_bootable :
    validate_boot_target slot_b (slots_of default_cli_options boot_disk) first_control ≡ true
unfolding validate_boot_target load_slot_state text_eq escape_json_string
second_bootable = refl

boot_cycle_example :
    let (fs1, code1) =
      boot_command good_env
        (λ path. true)
        default_cli_options
        (codes "set" ∷ codes "B" ∷ [])
        boot_disk in
    let (fs2, code2) =
      boot_command good_env (λ path. true) default_cli_options (codes "simulate" ∷ []) fs1 in
    (code1 ≡ 0)
    × (code2 ≡ 0)
    × (fs2 (control_file default_cli_options)
        ≡ some (boot_state_to_json (booted slot_b first_control)))
boot_cycle_example =
    boot_cycle good_env (λ path. true) default_cli_options (codes "B") slot_b boot_disk
      first_control good_env-IsHealthy refl boot_disk-IsStored names_second second_bootable
