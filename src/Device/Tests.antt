-- ===== src/Device/Tests.antt =====
-- The configuration and the state of a device at concrete inputs.
use embedded_linux_ota.Prelude.{true, some, ◌≡◌, refl, arith}
use embedded_linux_ota.Text.{text_eq, codes, is_empty}
use embedded_linux_ota.Fs.{Files}
use embedded_linux_ota.Fs.Examples.{full_env, good_env, empty_disk}
use embedded_linux_ota.Client.Updates.{DeviceConfig}
use embedded_linux_ota.Device.{load_config, validate_config, config_error_message}
use embedded_linux_ota.Device.Config.{validate_config-config_error_message}
use embedded_linux_ota.Device.State.{
  PersistentState, pending_reboot, load_state, save_state, new_state,
}
use embedded_linux_ota.Device.State.Persist.{IsPlain, trimmed, load_state-save_state}

abbrev pub config_files : Files
config_files path = some (
    codes
      "# device\ndevice_id = d1\nhardware_version=hw-v1\n\nsoftware_version = 1.0.0 \nactive_slot=A")

abbrev pub device : DeviceConfig
device = record {
  device_id = codes "d1";
  hardware_version = codes "hw-v1";
  software_version = codes "1.0.0";
  active_slot = codes "A";
}

loads : load_config (λ path. true) config_files (codes "c") ≡ some device
unfolding load_config
loads = refl

is_valid_device : validate_config device ≡ true
unfolding validate_config
is_valid_device = refl

validate_config-config_error_message_instance :
    validate_config device ≡ is_empty (config_error_message device)
validate_config-config_error_message_instance = validate_config-config_error_message device

abbrev rebooting_state : PersistentState
rebooting_state = record new_state {
  current_version = codes " 1.0.0";
  active_slot = codes "A";
  pending_slot = codes "B";
  update_state = pending_reboot;
  boot_attempts = 4294967295;
}

rebooting_state-IsPlain : IsPlain rebooting_state
rebooting_state-IsPlain = record {
  current_version = refl;
  active_slot = refl;
  pending_slot = refl;
  pending_version = refl;
  boot_attempts = omega arith;
  rollback_reason = refl;
}

-- On a full disk the state is reported as saved, and lost.
saved_and_lost :
    load_state
      (λ path. true)
      (save_state full_env rebooting_state (codes "/s") empty_disk).0
      (codes "/s")
    ≡ some new_state
unfolding load_state save_state text_eq
saved_and_lost = refl

saved_all_the_same : (save_state full_env rebooting_state (codes "/s") empty_disk).1 ≡ true
unfolding save_state
saved_all_the_same = refl

load_state-save_state_example :
    load_state
      (λ path. true)
      (save_state good_env rebooting_state (codes "/s") empty_disk).0
      (codes "/s")
    ≡ some (trimmed rebooting_state)
unfolding save_state
load_state-save_state_example =
    load_state-save_state good_env (λ path. true) rebooting_state (codes "/s") empty_disk refl
      rebooting_state-IsPlain refl refl
