-- ===== src/Program/Tests.antt =====
-- The programs at concrete calls.
use embedded_linux_ota.Prelude.{true, [], ◌∷◌, none, some, ◌≡◌, refl, arith, if◌then◌else◌}
use embedded_linux_ota.Text.{codes, text_eq}
use embedded_linux_ota.Fs.{Files}
use embedded_linux_ota.Fs.Examples.{good_env, good_env-IsHealthy}
use embedded_linux_ota.Device.{load_config, validate_config}
use embedded_linux_ota.Device.Tests.{device, config_files}
use embedded_linux_ota.Slot.State.{slot_b}
use embedded_linux_ota.Boot.Bootloader.{new_bootloader, state_to_json}
use embedded_linux_ota.Program.{
  System, default_options, running, start, parse_arguments, runs, exits,
}
use embedded_linux_ota.Program.Startup.{first_state_of, start_first}
use embedded_linux_ota.Program.Cli.{default_cli_options, parse_options}
use embedded_linux_ota.Program.Cli.Boot.{bootloader_command, target_slot}
use embedded_linux_ota.Program.Cli.Cycle.{loader_file, IsOnDisk, cycled, bootloader_cycle}

abbrev system : System
system = record {
  can_read = λ path. true;
  has_dir = λ path. true;
  now = λ n. codes "t";
  pid = codes "1";
}

abbrev first_disk : Files
first_disk path = if text_eq path (codes "/etc/ota/device.conf") then config_files path else none

loads_device : load_config (λ path. true) first_disk (codes "/etc/ota/device.conf") ≡ some device
unfolding load_config text_eq
loads_device = refl

valid_device : validate_config device ≡ true
unfolding validate_config
valid_device = refl

start_first_example :
    (start good_env system default_options first_disk).1 ≡ running device (first_state_of device)
unfolding text_eq
start_first_example =
    start_first good_env system good_env-IsHealthy default_options first_disk device refl refl refl
      refl loads_device valid_device refl

with_state_dir :
    parse_arguments default_options (codes "-s" ∷ codes "/x" ∷ [])
    ≡ runs (record default_options { state_dir = codes "/x" })
unfolding parse_arguments
with_state_dir = refl

no_value : parse_arguments default_options (codes "-s" ∷ []) ≡ exits 1
unfolding parse_arguments
no_value = refl

-- The command line tool passes over a subcommand, and over an option without a value.
with_subcommand :
    parse_options default_cli_options (codes "set" ∷ codes "-s" ∷ codes "/x" ∷ codes "-i" ∷ [])
    ≡ some (record default_cli_options { state_dir = codes "/x" })
unfolding parse_options
with_subcommand = refl

abbrev loader_disk : Files
loader_disk path =
    if text_eq path (loader_file default_cli_options)
    then some (state_to_json new_bootloader)
    else none

loader_disk-IsOnDisk : IsOnDisk default_cli_options loader_disk new_bootloader
unfolding text_eq
loader_disk-IsOnDisk = record { stored = refl; small_a = omega arith; small_b = omega arith }

names_b : target_slot (codes "b") ≡ some slot_b
unfolding target_slot
names_b = refl

bootloader_cycle_example :
    let (fs1, code1) =
      bootloader_command good_env
        (λ path. true)
        default_cli_options
        (codes "set-next" ∷ codes "b" ∷ [])
        loader_disk in
    let (fs2, code2) =
      bootloader_command good_env (λ path. true) default_cli_options (codes "simulate" ∷ []) fs1 in
    (code1 ≡ 0)
    × (code2 ≡ 0)
    × (fs2 (loader_file default_cli_options) ≡ some (state_to_json (cycled slot_b new_bootloader)))
bootloader_cycle_example =
    bootloader_cycle good_env (λ path. true) default_cli_options (codes "b") slot_b loader_disk
      new_bootloader good_env-IsHealthy refl loader_disk-IsOnDisk names_b
