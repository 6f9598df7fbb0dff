-- ===== src/Boot/Bootloader.antt =====
-- `SimulatedBootloader` (include/boot/bootloader, src/boot/bootloader/simulated_bootloader.cpp).
pub mod Document
pub mod Laws
pub mod Operations
use embedded_linux_ota.Prelude.{
  ℕ, ◌+◌, ◌%◌, Bool, true, false, not, ◌&&◌, ◌||◌, [], ◌++◌, Option, none, some, if◌then◌else◌,
  get_or,
}
use embedded_linux_ota.Text.{Text, codes, text_eq, is_empty}
use embedded_linux_ota.Text.Decimal.{int_limit, int_modulus, int_to_string, stoi}
use embedded_linux_ota.Prelude.{ltb}
use embedded_linux_ota.Json.{extract_flat_value}
use embedded_linux_ota.Fs.{Files, Env, replace_file}
use embedded_linux_ota.Slot.State.{
  SlotId, slot_a, slot_b, slot_eq, slot_id_to_string, string_to_slot_id,
}

pub data BootloaderError : Type 0 where
  no_error bootloader_state_missing bootloader_state_corrupted invalid_slot : BootloaderError
  invalid_boot_state target_slot_not_bootable persistence_error : BootloaderError
  boot_attempt_update_failed simulated_boot_failed : BootloaderError

abbrev pub bootloader_error_to_string : BootloaderError → Text
bootloader_error_to_string no_error = codes "NONE"
bootloader_error_to_string bootloader_state_missing = codes "BOOTLOADER_STATE_MISSING"
bootloader_error_to_string bootloader_state_corrupted = codes "BOOTLOADER_STATE_CORRUPTED"
bootloader_error_to_string invalid_slot = codes "INVALID_SLOT"
bootloader_error_to_string invalid_boot_state = codes "INVALID_BOOT_STATE"
bootloader_error_to_string target_slot_not_bootable = codes "TARGET_SLOT_NOT_BOOTABLE"
bootloader_error_to_string persistence_error = codes "PERSISTENCE_ERROR"
bootloader_error_to_string boot_attempt_update_failed = codes "BOOT_ATTEMPT_UPDATE_FAILED"
bootloader_error_to_string simulated_boot_failed = codes "SIMULATED_BOOT_FAILED"

pub record BootloaderState : Type 0 where
  pub current_slot : SlotId
  pub next_boot_slot : SlotId
  pub next_boot_slot_set : Bool
  pub boot_attempts_a : ℕ
  pub boot_attempts_b : ℕ

-- The counters are held as the 32-bit patterns of an `int`.
pub record SimulatedBootloader : Type 0 where
  pub state_dir : Text
  pub state_file : Text
  pub current_slot : SlotId
  pub next_boot_slot : SlotId
  pub next_boot_slot_set : Bool
  pub boot_attempts_a : ℕ
  pub boot_attempts_b : ℕ
  pub last_error : BootloaderError

-- A bootloader and the disk.
pub record Session : Type 0 where
  pub bl : SimulatedBootloader
  pub files : Files

abbrev pub new_bootloader : SimulatedBootloader
new_bootloader = record {
  state_dir = [];
  state_file = [];
  current_slot = slot_a;
  next_boot_slot = slot_a;
  next_boot_slot_set = false;
  boot_attempts_a = 0;
  boot_attempts_b = 0;
  last_error = no_error;
}

abbrev pub set_state_dir : Text → Text → Session → Session
set_state_dir dir file s = record s { bl = record s.bl { state_dir = dir; state_file = file } }

-- `config_ = get_default_config()`.
abbrev pub set_default_config : Session → Session
set_default_config =
    set_state_dir (codes "/var/lib/ota/bootloader")
      (codes "/var/lib/ota/bootloader/bootloader_state.json")

-- `set_config(get_test_config(base_dir))`.
abbrev pub set_test_config : Text → Session → Session
set_test_config base_dir =
    set_state_dir (base_dir ++ codes "/bootloader")
      (base_dir ++ codes "/bootloader/bootloader_state.json")

abbrev pub fail : BootloaderError → Session → Session × Bool
fail e s = (record s { bl = record s.bl { last_error = e } }, false)

-- `if (next_boot_slot_set_) next_boot_slot_ else current_slot_`.
abbrev pub get_next_boot_slot : SimulatedBootloader → SlotId
get_next_boot_slot bl = if bl.next_boot_slot_set then bl.next_boot_slot else bl.current_slot

abbrev pub get_state : SimulatedBootloader → BootloaderState
get_state bl = record {
  current_slot = bl.current_slot;
  next_boot_slot = get_next_boot_slot bl;
  next_boot_slot_set = bl.next_boot_slot_set;
  boot_attempts_a = bl.boot_attempts_a;
  boot_attempts_b = bl.boot_attempts_b;
}

abbrev pub get_boot_attempts : SlotId → SimulatedBootloader → ℕ
get_boot_attempts slot_a bl = bl.boot_attempts_a
get_boot_attempts slot_b bl = bl.boot_attempts_b

abbrev pub set_boot_attempts : SlotId → ℕ → SimulatedBootloader → SimulatedBootloader
set_boot_attempts slot_a n bl = record bl { boot_attempts_a = n }
set_boot_attempts slot_b n bl = record bl { boot_attempts_b = n }

abbrev pub validate_slot : SlotId → Bool
validate_slot slot = slot_eq slot slot_a || slot_eq slot slot_b

abbrev pub bool_text : Bool → Text
bool_text true = codes "true"
bool_text false = codes "false"

-- `state_to_json`, up to the first counter; `rest` is what it writes from there on.
abbrev pub head_to_json : SlotId → SlotId → Bool → Text → Text
head_to_json current next set rest =
    codes "{\n  \"current_slot\": \""
    ++ (slot_id_to_string current
        ++ (codes "\",\n  \"next_boot_slot\": \""
            ++ (slot_id_to_string next
                ++ (codes "\",\n  \"next_boot_slot_set\": "
                    ++ (bool_text set ++ (codes ",\n  \"boot_attempts_a\": " ++ rest))))))

-- The counters.
abbrev pub tail_to_json : ℕ → ℕ → Text
tail_to_json a b =
    int_to_string a ++ (codes ",\n  \"boot_attempts_b\": " ++ (int_to_string b ++ codes "\n}"))

abbrev pub state_to_json : SimulatedBootloader → Text
state_to_json bl =
    head_to_json bl.current_slot bl.next_boot_slot bl.next_boot_slot_set
      (tail_to_json bl.boot_attempts_a bl.boot_attempts_b)

unfoldable pub persist_state : Env → Session → Session × Bool
unfolding replace_file
persist_state env s =
    let (files, done) = replace_file env s.bl.state_file (state_to_json s.bl) s.files in
    if done
    then (record { bl = record s.bl { last_error = no_error }; files = files }, true)
    else (record { bl = record s.bl { last_error = persistence_error }; files = files }, false)

-- `val >= 0 ? val : 0`.
abbrev pub at_least_zero : ℕ → ℕ
at_least_zero n = if ltb n int_limit then n else 0

-- A counter's text: absent leaves the counter, and `none` stands for an exception of `std::stoi`.
abbrev pub read_attempts : Text → ℕ → Option ℕ
read_attempts str old =
    if is_empty str
    then some old
    else elim (stoi str) [ none ↦ none | some n ↦ some (at_least_zero n) ]

abbrev pub read_slot : Text → SlotId → SlotId
read_slot str old = if is_empty str then old else string_to_slot_id str

abbrev pub read_set : Text → Bool → Bool
read_set str old = if is_empty str then old else text_eq str (codes "true")

-- The part of `state_from_json` before the counters.
abbrev pub read_head : Text → SimulatedBootloader → SimulatedBootloader
read_head json bl = record bl {
  current_slot = read_slot (extract_flat_value json (codes "current_slot")) bl.current_slot;
  next_boot_slot = read_slot (extract_flat_value json (codes "next_boot_slot")) bl.next_boot_slot;
  next_boot_slot_set =
      read_set (extract_flat_value json (codes "next_boot_slot_set")) bl.next_boot_slot_set;
}

-- The part of `state_from_json` from the counters on; one that is not a number leaves what was read
-- before it.
unfoldable pub read_counters : Text → Session → Session × Bool
unfolding extract_flat_value stoi
read_counters json s =
    elim (read_attempts (extract_flat_value json (codes "boot_attempts_a")) s.bl.boot_attempts_a) [
      | none ↦ fail bootloader_state_corrupted s
      | some a ↦
          elim (read_attempts (extract_flat_value json (codes "boot_attempts_b"))
            s.bl.boot_attempts_b) [
              | none ↦
                  fail bootloader_state_corrupted
                    (record s { bl = record s.bl { boot_attempts_a = a } })
              | some b ↦ (
                record s {
                  bl = record s.bl {
                    boot_attempts_a = a;
                    boot_attempts_b = b;
                    last_error = no_error;
                  };
                },
                true,
              )
            ]
    ]

unfoldable pub state_from_json : Text → Session → Session × Bool
unfolding read_counters string_to_slot_id text_eq
state_from_json json s =
    if is_empty json then (s, true) else read_counters json (record s { bl = read_head json s.bl })

-- `load_state`: a missing or empty file is written anew.
unfoldable pub load_state : Env → Session → Session × Bool
unfolding persist_state state_from_json
load_state env s =
    let json = get_or [] (s.files s.bl.state_file) in
    if is_empty json
    then persist_state env (record s { bl = record s.bl { last_error = no_error } })
    else state_from_json json s

-- `initialize`; `has_dir` is what `ensure_directory_exists` returns.
unfoldable pub initialize : Env → (Text → Bool) → Session → Session × Bool
unfolding load_state
initialize env has_dir s =
    let s1 = if is_empty s.bl.state_dir then set_default_config s else s in
    if not (has_dir s1.bl.state_dir) then fail persistence_error s1 else load_state env s1
