-- ===== src/Program.antt =====
-- The programs of the repository: the client (src/main.cpp) here, the information tool
-- (src/device_info_main.cpp) in Program.Info and the command line tool (src/cli_main.cpp) in
-- Program.Cli. What they print is output only.
pub mod Startup
pub mod Info
pub mod Cli
pub mod Tests
use embedded_linux_ota.Prelude.{
  ℕ, Bool, true, false, not, ◌||◌, List, [], ◌∷◌, ◌++◌, Option, none, some, if◌then◌else◌,
}
use embedded_linux_ota.Text.{Text, codes, text_eq}
use embedded_linux_ota.Fs.{Files, Env}
use embedded_linux_ota.Client.Updates.{DeviceConfig}
use embedded_linux_ota.Device.{load_config, validate_config, config_error_message}
use embedded_linux_ota.Device.State.{
  PersistentState, update_state_to_string, load_state, initialize_state,
}
use embedded_linux_ota.Logging.{
  Logger, LogLevel, info_level, error_level, new_logger, initialize, log, shutdown,
}

pub record Options : Type 0 where
  pub config_path : Text
  pub state_dir : Text
  pub log_dir : Text

abbrev pub default_options : Options
default_options = record {
  config_path = codes "/etc/ota/device.conf";
  state_dir = codes "/var/lib/ota";
  log_dir = codes "/var/log/ota";
}

pub data Argument : Type 0 where
  help config_option state_option log_option unknown : Argument

unfoldable pub classify : Text → Argument
unfolding text_eq
classify arg =
    if text_eq arg (codes "-h") || text_eq arg (codes "--help")
    then help
    else if text_eq arg (codes "-c") || text_eq arg (codes "--config")
    then config_option
    else if text_eq arg (codes "-s") || text_eq arg (codes "--state-dir")
    then state_option
    else if text_eq arg (codes "-l") || text_eq arg (codes "--log-dir")
    then log_option
    else unknown

-- What the arguments ask for: an end with an exit code, or a run.
pub data Parsed : Type 0 where
  exits : ℕ → Parsed
  runs : Options → Parsed

-- The loop over the arguments.
unfoldable pub parse_arguments : Options → List Text → Parsed
unfolding classify
parse_arguments o [] = runs o
parse_arguments o (arg ∷ []) = elim (classify arg) [ help ↦ exits 0 | _ ↦ exits 1 ]
parse_arguments o (arg ∷ value ∷ rest) = elim (classify arg) [
  | help ↦ exits 0
  | config_option ↦ parse_arguments (record o { config_path = value }) rest
  | state_option ↦ parse_arguments (record o { state_dir = value }) rest
  | log_option ↦ parse_arguments (record o { log_dir = value }) rest
  | unknown ↦ exits 1
]

pub data Status : Type 0 where
  stopped : ℕ → Status
  running : DeviceConfig → PersistentState → Status

-- The system: which files can be read, which directories are there or can be made, the time of each
-- log line and the number of the process.
pub record System : Type 0 where
  pub can_read : Text → Bool
  pub has_dir : Text → Bool
  pub now : ℕ → Text
  pub pid : Text

abbrev pub config_message : DeviceConfig → Text
config_message config =
    codes "Configuration loaded: device="
    ++ (config.device_id
        ++ (codes " hw="
            ++ (config.hardware_version
                ++ (codes " sw="
                    ++ (config.software_version ++ (codes " slot=" ++ config.active_slot))))))

module _ (env : Env) (system : System) where
  abbrev pub info : ℕ → Text → Logger × Files → Logger × Files
  info n message s = log env (system.now n) info_level (codes "main") message s.0 s.1

  abbrev pub error : ℕ → Text → Logger × Files → Logger × Files
  error n message s = log env (system.now n) error_level (codes "main") message s.0 s.1

  -- The configuration, if it can be loaded and is valid.
  unfoldable pub configure : Options → Logger × Files → (Logger × Files) × Option DeviceConfig
  unfolding load_config validate_config config_error_message log
  configure o s = elim (load_config system.can_read s.1 o.config_path) [
    | none ↦ (error 1 (codes "Failed to load configuration from " ++ o.config_path) s, none)
    | some config ↦
        if not (validate_config config)
        then (error 1 (codes "Invalid configuration: " ++ config_error_message config) s, none)
        else (info 1 (config_message config) s, some config)
  ]

  -- The first state of a device, written and read again.
  unfoldable pub first_state :
      Options → DeviceConfig → Logger × Files → (Logger × Files) × Option PersistentState
  unfolding initialize_state load_state log
  first_state o config s =
      let (fs, ok) =
        initialize_state env (system.has_dir o.state_dir) o.state_dir config.software_version
          config.active_slot s.1 in
      if not ok
      then (error 3 (codes "Failed to initialize persistent state") (s.0, fs), none)
      else elim (load_state system.can_read fs o.state_dir) [
        | none ↦ (error 3 (codes "Failed to load state after initialization") (s.0, fs), none)
        | some state ↦ ((s.0, fs), some state)
      ]

  unfoldable pub obtain_state :
      Options → DeviceConfig → Logger × Files → (Logger × Files) × Option PersistentState
  unfolding load_state first_state log
  obtain_state o config s = elim (load_state system.can_read s.1 o.state_dir) [
    | none ↦ first_state o config (info 2 (codes "No persistent state found, initializing") s)
    | some state ↦ (s, some state)
  ]

  abbrev pub announce : PersistentState → Logger × Files → Logger × Files
  announce state s = info 5 (codes "OTA client running (PID: " ++ (system.pid ++ codes ")")) (
      info 4
        (codes "State loaded: version="
          ++ (state.current_version
              ++ (codes " slot="
                  ++ (state.active_slot
                      ++ (codes " state=" ++ update_state_to_string state.update_state)))))
        s)

  -- `main` up to its loop, with the parsed options.
  unfoldable pub start : Options → Files → (Logger × Files) × Status
  unfolding initialize configure obtain_state log update_state_to_string
  start o fs =
      let (logger, fs1, ok) =
        initialize env (system.has_dir o.log_dir) o.log_dir info_level new_logger fs in
      if not ok
      then ((logger, fs1), stopped 1)
      else (let (s2, loaded) = configure o (info 0 (codes "OTA client starting") (logger, fs1)) in
          elim loaded [
            | none ↦ (s2, stopped 1)
            | some config ↦
                let (s3, obtained) = obtain_state o config s2 in
                elim obtained [
                  | none ↦ (s3, stopped 1)
                  | some state ↦ (announce state s3, running config state)
                ]
          ])

  -- From the end of the loop on.
  unfoldable pub finish : Logger × Files → Logger × Files
  unfolding log
  finish s = let s1 = info 6 (codes "OTA client shutting down") s in (shutdown s1.0, s1.1)
