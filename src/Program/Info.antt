-- ===== src/Program/Info.antt =====
-- The information tool (src/device_info_main.cpp).
use embedded_linux_ota.Prelude.{not, List, [], ◌∷◌, Option, none, some, if◌then◌else◌}
use embedded_linux_ota.Text.{Text, codes, is_empty}
use embedded_linux_ota.Fs.{Files, Env}
use embedded_linux_ota.Client.Updates.{DeviceConfig}
use embedded_linux_ota.Device.{load_config, validate_config}
use embedded_linux_ota.Device.State.{idle, PersistentState, update_state_to_string, load_state}
use embedded_linux_ota.Logging.{Logger, info_level, new_logger, initialize, log, shutdown}
use embedded_linux_ota.Program.{
  Options, default_options, help, config_option, state_option, log_option, unknown, classify,
  Parsed, exits, runs, System,
}

-- The tool has no option for the log.
unfoldable pub parse_info_arguments : Options → List Text → Parsed
unfolding classify
parse_info_arguments o [] = runs o
parse_info_arguments o (arg ∷ []) = elim (classify arg) [ help ↦ exits 0 | _ ↦ exits 1 ]
parse_info_arguments o (arg ∷ value ∷ rest) = elim (classify arg) [
  | help ↦ exits 0
  | config_option ↦ parse_info_arguments (record o { config_path = value }) rest
  | state_option ↦ parse_info_arguments (record o { state_dir = value }) rest
  | log_option ↦ exits 1
  | unknown ↦ exits 1
]

-- The five lines that are printed.
pub record Shown : Type 0 where
  pub device_id : Text
  pub hardware_version : Text
  pub software_version : Text
  pub active_slot : Text
  pub ota_state : Text

-- A text of the state where it is not empty, else that of the configuration.
abbrev pub prefer : Text → Text → Text
prefer state_text config_text = if is_empty state_text then config_text else state_text

unfoldable pub show_device : DeviceConfig → Option PersistentState → Shown
unfolding update_state_to_string
show_device config none = record {
  device_id = config.device_id;
  hardware_version = config.hardware_version;
  software_version = config.software_version;
  active_slot = config.active_slot;
  ota_state = update_state_to_string idle;
}
show_device config (some state) = record {
  device_id = config.device_id;
  hardware_version = config.hardware_version;
  software_version = prefer state.current_version config.software_version;
  active_slot = prefer state.active_slot config.active_slot;
  ota_state = update_state_to_string state.update_state;
}

-- `main` with the parsed options; `none` stands for its exit code 1. That the log cannot be opened
-- is not asked.
unfoldable pub show : Env → System → Options → Files → (Logger × Files) × Option Shown
unfolding initialize log load_config validate_config load_state show_device
show env system o fs =
    let (logger, fs1, ok) =
      initialize env (system.has_dir default_options.log_dir) default_options.log_dir info_level
        new_logger fs in
    elim (load_config system.can_read fs1 o.config_path) [
      | none ↦ ((logger, fs1), none)
      | some config ↦
          if not (validate_config config)
          then ((logger, fs1), none)
          else (let shown = show_device config (load_state system.can_read fs1 o.state_dir) in
              let (logger2, fs2) =
                log env (system.now 0) info_level (codes "device-info")
                  (codes "Device information displayed") logger fs1 in
              ((shutdown logger2, fs2), some shown))
    ]
