-- ===== src/Program/Cli.antt =====
-- The command line tool (src/cli_main.cpp): its arguments, and its commands. What it prints and logs
-- is output only. The commands are in Program.Cli.Release, of releases, and Program.Cli.Boot, of the
-- states on disk.
pub mod Release
pub mod Boot
pub mod Dispatch
pub mod Accepted
pub mod Installed
pub mod Signed
pub mod Cycle
pub mod BootCycle
pub mod Tests
use embedded_linux_ota.Prelude.{
  ℕ, Bool, true, false, ◌||◌, List, [], ◌∷◌, Option, none, some, if◌then◌else◌,
}
use embedded_linux_ota.Text.{Text, codes, text_eq}

pub record CliOptions : Type 0 where
  pub config_path : Text
  pub state_dir : Text
  pub log_dir : Text
  pub server_url : Text
  pub download_dir : Text
  pub image_path : Text
  pub expected_hash : Text
  pub release_dir : Text
  pub public_key_path : Text
  pub version : Text

abbrev pub default_cli_options : CliOptions
default_cli_options = record {
  config_path = codes "/etc/ota/device.conf";
  state_dir = codes "/var/lib/ota";
  log_dir = codes "/var/log/ota";
  server_url = codes "http://localhost:8080";
  download_dir = codes "/var/lib/ota/downloads";
  image_path = [];
  expected_hash = [];
  release_dir = [];
  public_key_path = codes "/etc/ota/trusted/ota-signing.pub";
  version = [];
}

-- An option that takes a value.
pub data Key : Type 0 where
  config_path state_dir log_dir server_url download_dir image_path expected_hash : Key
  release_dir public_key_path version : Key

pub data CliArgument : Type 0 where
  help other : CliArgument
  takes : Key → CliArgument

abbrev either : Text → Text → Text → Bool
either arg short long = text_eq arg short || text_eq arg long

unfoldable pub classify_cli : Text → CliArgument
unfolding text_eq
classify_cli arg =
    if either arg (codes "-h") (codes "--help")
    then help
    else if either arg (codes "-c") (codes "--config")
    then takes Key.config_path
    else if either arg (codes "-s") (codes "--state-dir")
    then takes Key.state_dir
    else if either arg (codes "-l") (codes "--log-dir")
    then takes Key.log_dir
    else if either arg (codes "-u") (codes "--server-url")
    then takes Key.server_url
    else if either arg (codes "-d") (codes "--download-dir")
    then takes Key.download_dir
    else if either arg (codes "-i") (codes "--image")
    then takes Key.image_path
    else if either arg (codes "-e") (codes "--expected-hash")
    then takes Key.expected_hash
    else if either arg (codes "-r") (codes "--release-dir")
    then takes Key.release_dir
    else if either arg (codes "-k") (codes "--public-key")
    then takes Key.public_key_path
    else if either arg (codes "-v") (codes "--version")
    then takes Key.version
    else other

abbrev pub assign_option : Key → Text → CliOptions → CliOptions
assign_option Key.config_path value o = record o { config_path = value }
assign_option Key.state_dir value o = record o { state_dir = value }
assign_option Key.log_dir value o = record o { log_dir = value }
assign_option Key.server_url value o = record o { server_url = value }
assign_option Key.download_dir value o = record o { download_dir = value }
assign_option Key.image_path value o = record o { image_path = value }
assign_option Key.expected_hash value o = record o { expected_hash = value }
assign_option Key.release_dir value o = record o { release_dir = value }
assign_option Key.public_key_path value o = record o { public_key_path = value }
assign_option Key.version value o = record o { version = value }

-- The loop over the arguments behind the command; `none` where the help is asked for. An option
-- with no value behind it and any other word are passed over.
unfoldable pub parse_options : CliOptions → List Text → Option CliOptions
unfolding classify_cli
parse_options o [] = some o
parse_options o (arg ∷ []) = elim (classify_cli arg) [ help ↦ none | _ ↦ some o ]
parse_options o (arg ∷ value ∷ rest) = elim (classify_cli arg) [
  | help ↦ none
  | other ↦ parse_options o (value ∷ rest)
  | takes key ↦ parse_options (assign_option key value o) rest
]
