-- ===== src/Boot/Control.antt =====
-- `SimulatedBootControl` (include/boot/simulated_boot_control.h, src/boot/simulated_boot_control.cpp).
pub mod Document
pub mod Operations
pub mod Agreement
use embedded_linux_ota.Prelude.{
  ℕ, ◌+◌, ◌%◌, Bool, true, false, not, ◌&&◌, ◌||◌, [], ◌∷◌, ◌++◌, Option, none, some, ◌>>=◌,
  if◌then◌else◌, get_or,
}
use embedded_linux_ota.Text.{Text, codes, text_eq, is_empty, find_after, after_char, before_char}
use embedded_linux_ota.Text.Decimal.{int_modulus, int_to_string, stoi}
use embedded_linux_ota.Json.{extract_flat_value}
use embedded_linux_ota.Fs.{Files, Env, replace_file}
use embedded_linux_ota.Slot.State.{
  SlotId, slot_a, slot_b, slot_eq, slot_id_to_string, string_to_slot_id, empty, invalid,
  slot_state_eq,
}
use embedded_linux_ota.Slot.Manager.{SlotManager, get_slot_info}
use embedded_linux_ota.Boot.Bootloader.{
  BootloaderState, bool_text, at_least_zero, read_slot, read_set,
}
use embedded_linux_ota.Boot.Interface.{Bootloader}

-- `boot_attempts_` always has both keys: the constructor sets them and nothing erases one. The
-- counters are the 32-bit patterns of an `int`; `bootloader` is the shared pointer, which may be null.
pub record SimulatedBootControl (B : Type 0) : Type 0 where
  pub boot_state_dir : Text
  pub boot_state_file : Text
  pub current_slot : SlotId
  pub next_slot : SlotId
  pub next_slot_set : Bool
  pub boot_attempts_a : ℕ
  pub boot_attempts_b : ℕ
  pub bootloader : Option B

-- A boot control and the disk.
pub record Session (B : Type 0) : Type 0 where
  pub bc : SimulatedBootControl B
  pub files : Files

-- What `get_boot_state` returns.
pub record BootState : Type 0 where
  pub current_slot : SlotId
  pub next_slot : SlotId
  pub boot_attempts_a : ℕ
  pub boot_attempts_b : ℕ

-- `boot_state_to_json`, up to the first counter; `rest` is what it writes from there on.
abbrev pub boot_head_to_json : SlotId → Bool → SlotId → Text → Text
boot_head_to_json current set next rest =
    codes "{\n  \"current_slot\": \""
    ++ (slot_id_to_string current
        ++ (codes "\",\n  \"next_slot_set\": "
            ++ (bool_text set
                ++ (codes ",\n  \"next_slot\": \""
                    ++ (slot_id_to_string next
                        ++ (codes "\",\n  \"boot_attempts\": {\n    \"A\": " ++ rest))))))

-- The counters, up to the end.
abbrev pub boot_tail_to_json : ℕ → ℕ → Text
boot_tail_to_json a b =
    int_to_string a ++ (codes ",\n    \"B\": " ++ (int_to_string b ++ codes "\n  }\n}"))

-- The object of the counters, with its braces.
unfoldable pub attempts_object : Text → Option Text
unfolding find_after after_char before_char
attempts_object json = do
  r ← find_after (codes "\"boot_attempts\"") json
  o ← after_char b'{' r
  v ← before_char b'}' o
  some (b'{' ∷ (v ++ codes "}"))

-- A counter's text: absent leaves the counter, and one that is not a number gives 0.
abbrev pub read_count : Text → ℕ → ℕ
read_count str old =
    if is_empty str then old else elim (stoi str) [ none ↦ 0 | some n ↦ at_least_zero n ]

module _ {B : Type 0} where
  abbrev pub new_control : SimulatedBootControl B
  new_control = record {
    boot_state_dir = [];
    boot_state_file = [];
    current_slot = slot_a;
    next_slot = slot_a;
    next_slot_set = false;
    boot_attempts_a = 0;
    boot_attempts_b = 0;
    bootloader = none;
  }

  abbrev pub set_config : Text → Text → SimulatedBootControl B → SimulatedBootControl B
  set_config dir file bc = record bc { boot_state_dir = dir; boot_state_file = file }

  abbrev pub set_default_config : SimulatedBootControl B → SimulatedBootControl B
  set_default_config =
      set_config (codes "/var/lib/ota/boot") (codes "/var/lib/ota/boot/boot_state.json")

  abbrev pub set_bootloader : Option B → SimulatedBootControl B → SimulatedBootControl B
  set_bootloader b bc = record bc { bootloader = b }

  -- `next_slot_set_ ? next_slot_ : current_slot_`.
  abbrev pub get_next_boot_slot : SimulatedBootControl B → SlotId
  get_next_boot_slot bc = if bc.next_slot_set then bc.next_slot else bc.current_slot

  abbrev pub get_boot_attempt_count : SlotId → SimulatedBootControl B → ℕ
  get_boot_attempt_count slot_a bc = bc.boot_attempts_a
  get_boot_attempt_count slot_b bc = bc.boot_attempts_b

  abbrev pub set_attempt_count : SlotId → ℕ → SimulatedBootControl B → SimulatedBootControl B
  set_attempt_count slot_a n bc = record bc { boot_attempts_a = n }
  set_attempt_count slot_b n bc = record bc { boot_attempts_b = n }

  abbrev pub get_boot_state : SimulatedBootControl B → BootState
  get_boot_state bc = record {
    current_slot = bc.current_slot;
    next_slot = get_next_boot_slot bc;
    boot_attempts_a = bc.boot_attempts_a;
    boot_attempts_b = bc.boot_attempts_b;
  }

  abbrev pub boot_state_to_json : SimulatedBootControl B → Text
  boot_state_to_json bc =
      boot_head_to_json bc.current_slot bc.next_slot_set bc.next_slot
        (boot_tail_to_json bc.boot_attempts_a bc.boot_attempts_b)

  unfoldable pub persist_boot_state : Env → Session B → Session B × Bool
  unfolding replace_file
  persist_boot_state env s =
      let (files, done) = replace_file env s.bc.boot_state_file (boot_state_to_json s.bc) s.files in
      (record s { files = files }, done)

  -- The part of `boot_state_from_json` that reads the counters.
  unfoldable pub read_counts : Text → SimulatedBootControl B → SimulatedBootControl B
  unfolding attempts_object extract_flat_value stoi
  read_counts json bc = elim (attempts_object json) [
    | none ↦ bc
    | some obj ↦ record bc {
      boot_attempts_a = read_count (extract_flat_value obj (codes "A")) bc.boot_attempts_a;
      boot_attempts_b = read_count (extract_flat_value obj (codes "B")) bc.boot_attempts_b;
    }
  ]

  -- The part before the counters.
  abbrev pub read_boot_head : Text → SimulatedBootControl B → SimulatedBootControl B
  read_boot_head json bc = record bc {
    current_slot = read_slot (extract_flat_value json (codes "current_slot")) bc.current_slot;
    next_slot_set = read_set (extract_flat_value json (codes "next_slot_set")) bc.next_slot_set;
    next_slot = read_slot (extract_flat_value json (codes "next_slot")) bc.next_slot;
  }

  unfoldable pub boot_state_from_json : Text → Session B → Session B × Bool
  unfolding read_counts string_to_slot_id text_eq
  boot_state_from_json json s =
      if is_empty json
      then (s, true)
      else (record s { bc = read_counts json (read_boot_head json s.bc) }, true)

  -- `load_boot_state`: a missing file is written.
  unfoldable pub load_boot_state : Env → Session B → Session B × Bool
  unfolding persist_boot_state boot_state_from_json
  load_boot_state env s = elim (s.files s.bc.boot_state_file) [
    | none ↦ persist_boot_state env s
    | some json ↦ boot_state_from_json json s
  ]

  unfoldable pub reset_boot_attempt_count : Env → SlotId → Session B → Session B × Bool
  unfolding persist_boot_state
  reset_boot_attempt_count env slot s =
      if not (slot_eq slot slot_a) && not (slot_eq slot slot_b)
      then (s, false)
      else persist_boot_state env (record s { bc = set_attempt_count slot 0 s.bc })

  unfoldable pub validate_boot_target : SlotId → SlotManager → SimulatedBootControl B → Bool
  validate_boot_target slot sm bc =
      let info = get_slot_info sm slot in
      if not (slot_eq slot slot_a) && not (slot_eq slot slot_b)
      then false
      else if slot_state_eq info.state empty || slot_state_eq info.state invalid
      then false
      else if slot_eq slot bc.current_slot
      then false
      else true
