-- ===== src/Slot/Manager.antt =====
-- `SlotManager`: its state, its operations, and the files that it keeps.
pub mod Operations
pub mod Queries
use embedded_linux_ota.Prelude.{
  Bool, true, false, not, ◌&&◌, ◌||◌, List, [], ◌∷◌, ◌++◌, if◌then◌else◌,
}
use embedded_linux_ota.Text.{Text, codes, text_eq, is_empty}
use embedded_linux_ota.Json.{escape_json_string, extract_json_value}
use embedded_linux_ota.Json.Document.{Field, quoted, document}
use embedded_linux_ota.Fs.{Files, Env, replace_file, read_all}
use embedded_linux_ota.Slot.State.{
  SlotId, slot_a, slot_b, slot_eq, slot_id_to_string, string_to_slot_id, SlotState, empty, active,
  inactive, prepared, bootable, invalid, slot_state_eq, slot_state_to_string, string_to_slot_state,
  SlotInfo, is_valid, is_version_text,
}

pub record SlotConfig : Type 0 where
  pub slots_dir : Text
  pub state_file : Text
  pub default_active_slot : SlotId
  pub default_version : Text
  pub default_hardware_version : Text

pub record SlotManager : Type 0 where
  pub config : SlotConfig
  pub slot_a_info : SlotInfo
  pub slot_b_info : SlotInfo
  pub active_slot : SlotId

-- A manager and the disk.
pub record Session : Type 0 where
  pub sm : SlotManager
  pub files : Files

abbrev pub get_test_config : Text → SlotConfig
get_test_config base_dir = record {
  slots_dir = base_dir ++ codes "/slots";
  state_file = base_dir ++ codes "/slots/global.json";
  default_active_slot = slot_a;
  default_version = codes "1.0.0";
  default_hardware_version = codes "hw-v1";
}

abbrev pub get_default_config : SlotConfig
get_default_config = record {
  slots_dir = codes "/var/lib/ota/slots";
  state_file = codes "/var/lib/ota/slots/global.json";
  default_active_slot = slot_a;
  default_version = codes "1.0.0";
  default_hardware_version = codes "hw-v1";
}

abbrev pub blank_info : SlotId → SlotInfo
blank_info slot = record {
  slot_id = slot;
  version = [];
  hardware_version = [];
  state = empty;
  sha256 = [];
  installed_at = [];
}

abbrev pub new_manager : SlotManager
new_manager = record {
  config = get_default_config;
  slot_a_info = blank_info slot_a;
  slot_b_info = blank_info slot_b;
  active_slot = slot_a;
}

abbrev pub set_config : SlotManager → SlotConfig → SlotManager
set_config sm config = record sm { config = config }

abbrev pub other_slot : SlotId → SlotId
other_slot slot_a = slot_b
other_slot slot_b = slot_a

abbrev pub get_inactive_slot : SlotManager → SlotId
get_inactive_slot sm = other_slot sm.active_slot

-- `get_slot_info`, by the slot first.
abbrev pub info_of : SlotId → SlotManager → SlotInfo
info_of slot_a sm = sm.slot_a_info
info_of slot_b sm = sm.slot_b_info

abbrev pub get_slot_info : SlotManager → SlotId → SlotInfo
get_slot_info sm slot = info_of slot sm

-- An assignment through the reference to a slot's information.
abbrev pub set_info : SlotId → SlotInfo → SlotManager → SlotManager
set_info slot_a info sm = record sm { slot_a_info = info }
set_info slot_b info sm = record sm { slot_b_info = info }

abbrev pub get_slot_dir : SlotManager → SlotId → Text
get_slot_dir sm slot = sm.config.slots_dir ++ (codes "/slot-" ++ slot_id_to_string slot)

abbrev pub get_slot_metadata_file : SlotManager → SlotId → Text
get_slot_metadata_file sm slot =
    sm.config.slots_dir ++ ((codes "/slot-" ++ slot_id_to_string slot) ++ codes "/metadata.json")

abbrev pub metadata_fields : SlotInfo → List Field
metadata_fields info =
    quoted (codes "slot") (escape_json_string (slot_id_to_string info.slot_id))
    ∷ quoted (codes "version") (escape_json_string info.version)
    ∷ quoted (codes "hardware_version") (escape_json_string info.hardware_version)
    ∷ quoted (codes "state") (escape_json_string (slot_state_to_string info.state))
    ∷ quoted (codes "sha256") (escape_json_string info.sha256)
    ∷ quoted (codes "installed_at") (escape_json_string info.installed_at)
    ∷ []

unfoldable pub write_slot_metadata : Env → SlotId → SlotInfo → Session → Session × Bool
write_slot_metadata env slot info s =
    let (files, done) =
      replace_file env (get_slot_metadata_file s.sm slot) (document (metadata_fields info))
        s.files in
    (record s { files = files }, done)

abbrev pub global_fields : SlotId → List Field
global_fields slot = quoted (codes "active_slot") (escape_json_string (slot_id_to_string slot)) ∷ []

unfoldable pub write_global_state : Env → Session → Session × Bool
write_global_state env s =
    let (files, done) =
      replace_file env s.sm.config.state_file (document (global_fields s.sm.active_slot)) s.files in
    (record s { files = files }, done)

-- `persist_slot_state`: what the three writes return is not asked.
unfoldable pub persist_slot_state : Env → Session → Session × Bool
unfolding write_slot_metadata write_global_state
persist_slot_state env s =
    let s1 = (write_slot_metadata env slot_a s.sm.slot_a_info s).0 in
    let s2 = (write_slot_metadata env slot_b s.sm.slot_b_info s1).0 in
    ((write_global_state env s2).0, true)

-- The information that a metadata file gives for a slot.
unfoldable pub parse_metadata : SlotId → Text → SlotInfo
unfolding extract_json_value string_to_slot_state
parse_metadata slot json = record {
  slot_id = slot;
  version = extract_json_value json (codes "version");
  hardware_version = extract_json_value json (codes "hardware_version");
  state = string_to_slot_state (extract_json_value json (codes "state"));
  sha256 = extract_json_value json (codes "sha256");
  installed_at = extract_json_value json (codes "installed_at");
}

-- `read_slot_metadata`: a missing or empty file leaves the information as it is.
unfoldable pub read_slot_metadata : SlotId → Session → Session × Bool
unfolding parse_metadata
read_slot_metadata slot s =
    let json = read_all s.files (get_slot_metadata_file s.sm slot) in
    if is_empty json
    then (s, false)
    else (record s { sm = set_info slot (parse_metadata slot json) s.sm }, true)

unfoldable pub read_global_state : Session → Session × Bool
unfolding extract_json_value string_to_slot_id
read_global_state s =
    let json = read_all s.files s.sm.config.state_file in
    let active_slot_str = extract_json_value json (codes "active_slot") in
    if is_empty json
    then (s, false)
    else if is_empty active_slot_str
    then (s, false)
    else (record s { sm = record s.sm { active_slot = string_to_slot_id active_slot_str } }, true)

unfoldable pub load_slot_state : Session → Session × Bool
unfolding read_global_state read_slot_metadata
load_slot_state s =
    let (s1, found) = read_global_state s in
    let s2 = (read_slot_metadata slot_a s1).0 in
    if found then ((read_slot_metadata slot_b s2).0, true) else (s1, false)
