-- ===== src/Device.antt =====
-- The configuration of the device (include/device/device_config.h, src/device/device_config.cpp).
pub mod State
pub mod Config
pub mod Tests
use embedded_linux_ota.Prelude.{
  ℕ, Bool, true, false, not, ◌&&◌, ◌||◌, List, [], ◌∷◌, ◌++◌, Option, none, some, ◌>>=◌, ◌==◌,
  if◌then◌else◌,
}
use embedded_linux_ota.Text.{Text, codes, text_eq, is_empty, before_char, after_char}
use embedded_linux_ota.Text.Lines.{lines, trim}
use embedded_linux_ota.Fs.{Files}
use embedded_linux_ota.Client.{is_semver}
use embedded_linux_ota.Client.Updates.{DeviceConfig}

-- Whether the line is blank or a comment.
abbrev pub is_skipped : Text → Bool
is_skipped [] = true
is_skipped (c ∷ s) = c == b'#'

-- The key and the value of a line; `none` for a line that is passed over.
unfoldable pub setting : Text → Option (Text × Text)
unfolding trim before_char after_char
setting line =
    let l = trim line in
    if is_skipped l
    then none
    else do key ← before_char b'=' l; value ← after_char b'=' l; some (trim key, trim value)

-- The loop over the lines; `assign` is its chain of tests on the key.
module _ {ℓ} {S : Type ℓ} (assign : S → Text → Text → S) where
  abbrev pub read_line : S → Text → S
  unfolding setting
  read_line s line = elim (setting line) [ none ↦ s | some (key, value) ↦ assign s key value ]

  unfoldable pub read_lines : S → List Text → S
  unfolding setting
  read_lines s [] = s
  read_lines s (line ∷ rest) = read_lines (read_line s line) rest

-- A file that is opened for reading.
abbrev pub open_file : (Text → Bool) → Files → Text → Option Text
open_file can_read fs path = if can_read path then fs path else none

abbrev pub empty_config : DeviceConfig
empty_config = record {
  device_id = [];
  hardware_version = [];
  software_version = [];
  active_slot = [];
}

unfoldable pub assign_config : DeviceConfig → Text → Text → DeviceConfig
unfolding text_eq
assign_config config key value =
    if text_eq key (codes "device_id")
    then record config { device_id = value }
    else if text_eq key (codes "hardware_version")
    then record config { hardware_version = value }
    else if text_eq key (codes "software_version")
    then record config { software_version = value }
    else if text_eq key (codes "active_slot")
    then record config { active_slot = value }
    else config

unfoldable pub load_config : (Text → Bool) → Files → Text → Option DeviceConfig
unfolding lines read_lines assign_config
load_config can_read fs config_path = do
  content ← open_file can_read fs config_path
  some (read_lines assign_config empty_config (lines content))

-- `config.active_slot != "A" && config.active_slot != "B"`.
abbrev pub is_no_slot : Text → Bool
is_no_slot slot = not (text_eq slot (codes "A")) && not (text_eq slot (codes "B"))

unfoldable pub validate_config : DeviceConfig → Bool
unfolding is_semver text_eq
validate_config config =
    if is_empty config.device_id
    then false
    else if is_empty config.hardware_version
    then false
    else if not (is_semver config.software_version)
    then false
    else not (is_no_slot config.active_slot)

unfoldable pub config_error_message : DeviceConfig → Text
unfolding is_semver text_eq
config_error_message config =
    if is_empty config.device_id
    then codes "device_id is empty"
    else if is_empty config.hardware_version
    then codes "hardware_version is empty"
    else if not (is_semver config.software_version)
    then codes "software_version is not valid semver (expected MAJOR.MINOR.PATCH): "
      ++ config.software_version
    else if is_no_slot config.active_slot
    then codes "active_slot must be A or B, got: " ++ config.active_slot
    else []
