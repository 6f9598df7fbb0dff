-- ===== src/Slot/Persist.antt =====
-- What the slot manager leaves on disk, and what a later start of the program finds.
use embedded_linux_ota.Prelude.{
  true, false, List, [], ◌∷◌, ◌++◌, some, ◌≡◌, refl, ap, ◌∙◌, sym, append_assoc,
}
use embedded_linux_ota.Text.{Text, codes, text_eq}
use embedded_linux_ota.Json.{escape_json_string, extract_json_value}
use embedded_linux_ota.Json.Document.{quoted, document, is_name}
use embedded_linux_ota.Json.Lookup.{IsNeutral, AllNeutral, find_field}
use embedded_linux_ota.Json.Strings.{known, IsFree, escaped-IsNeutral, extract_escaped}
use embedded_linux_ota.Fs.{Files, Env, IsHealthy, tmp_of, replace_file}
use embedded_linux_ota.Text.Search.{text_eq-append}
use embedded_linux_ota.Fs.Replace.{replace_file_others, replace_file_healthy}
use embedded_linux_ota.Slot.State.{
  SlotId, slot_a, slot_b, slot_id_to_string, SlotState, empty, slot_state_to_string,
  string_to_slot_state, SlotInfo, string_to_slot_state-to_string,
}
use embedded_linux_ota.Slot.Manager.{
  SlotConfig, Session, get_slot_metadata_file, metadata_fields, global_fields, persist_slot_state,
  parse_metadata, load_slot_state, new_manager, set_config, set_info, read_slot_metadata,
  read_global_state,
}

abbrev pub slot_keys : List Text
slot_keys =
    codes "slot"
    ∷ codes "version"
    ∷ codes "hardware_version"
    ∷ codes "state"
    ∷ codes "sha256"
    ∷ codes "installed_at"
    ∷ []

-- No text of the information looks like a key of the file.
pub record IsStorable (info : SlotInfo) : Type 0 where
  pub version : IsFree slot_keys info.version
  pub hardware_version : IsFree slot_keys info.hardware_version
  pub sha256 : IsFree slot_keys info.sha256
  pub installed_at : IsFree slot_keys info.installed_at

id-IsFree : (s : SlotId) → IsFree slot_keys (slot_id_to_string s)
unfolding text_eq
id-IsFree slot_a = refl
id-IsFree slot_b = refl

state-IsFree : (s : SlotState) → IsFree slot_keys (slot_state_to_string s)
unfolding text_eq
state-IsFree empty = refl
state-IsFree _ = refl

module _ (info : SlotInfo) (safe : IsStorable info) where
  metadata-AllNeutral :
      (key : Text)
      → is_name key ≡ true
      → known slot_keys key ≡ true
      → AllNeutral key (metadata_fields info)
  metadata-AllNeutral key named here = (
    escaped _ (id-IsFree info.slot_id),
    (
      escaped _ safe.version,
      (
        escaped _ safe.hardware_version,
        (
          escaped _ (state-IsFree info.state),
          (escaped _ safe.sha256, (escaped _ safe.installed_at, tt)),
        ),
      ),
    ),
  )
    where
      escaped : (v : Text) → IsFree slot_keys v → IsNeutral key (quoted [] (escape_json_string v))
      escaped = escaped-IsNeutral slot_keys key named here

  read_text :
      (key v n : Text)
      → is_name key ≡ true
      → known slot_keys key ≡ true
      → find_field key (metadata_fields info) ≡ some (quoted n (escape_json_string v))
      → extract_json_value (document (metadata_fields info)) key ≡ v
  read_text key v n named here found =
      extract_escaped key named (metadata_fields info) refl (metadata-AllNeutral key named here)
        found

  read_state :
      string_to_slot_state (extract_json_value (document (metadata_fields info)) (codes "state"))
      ≡ info.state
  unfolding text_eq
  read_state =
      ap string_to_slot_state
        (read_text (codes "state") (slot_state_to_string info.state) (codes "state") refl refl refl)
      ∙ string_to_slot_state-to_string info.state

  -- A metadata file gives the information of the slot back, for its own slot.
  pub parse_metadata-document : parse_metadata info.slot_id (document (metadata_fields info)) ≡ info
  unfolding parse_metadata text_eq
  parse_metadata-document = λ i. record {
    slot_id = info.slot_id;
    version = read_text (codes "version") info.version (codes "version") refl refl refl i;
    hardware_version =
        read_text (codes "hardware_version") info.hardware_version (codes "hardware_version") refl
          refl refl i;
    state = read_state i;
    sha256 = read_text (codes "sha256") info.sha256 (codes "sha256") refl refl refl i;
    installed_at =
        read_text (codes "installed_at") info.installed_at (codes "installed_at") refl refl refl i;
  }

-- Replacing one file of a directory leaves another as it is.
sibling :
    (env : Env) (dir x y content : Text) (fs : Files)
    → text_eq x y ≡ false
    → text_eq (tmp_of x) y ≡ false
    → {path : Text} → path ≡ dir ++ x
    → (replace_file env path content fs).0 (dir ++ y) ≡ fs (dir ++ y)
sibling env dir x y content fs h k at =
    ap (λ p. (replace_file env p content fs).0 (dir ++ y)) at
    ∙ replace_file_others env (dir ++ x) content (dir ++ y) fs (text_eq-append dir x y ∙ h) (
        ap (λ t. text_eq t (dir ++ y)) (append_assoc dir x (codes ".tmp"))
        ∙ text_eq-append dir (tmp_of x) y
        ∙ k)

-- The three files are beside each other in the directory of the slots.
abbrev pub IsPlaced : SlotConfig → Type 0
IsPlaced config = config.state_file ≡ config.slots_dir ++ codes "/global.json"

module _ (env : Env) (healthy : IsHealthy env) (s : Session) (placed : IsPlaced s.sm.config) where
  abbrev doc_a : Text
  doc_a = document (metadata_fields s.sm.slot_a_info)

  abbrev doc_b : Text
  doc_b = document (metadata_fields s.sm.slot_b_info)

  abbrev doc_g : Text
  doc_g = document (global_fields s.sm.active_slot)

  abbrev disk_a : Files
  disk_a = (replace_file env (get_slot_metadata_file s.sm slot_a) doc_a s.files).0

  abbrev disk_b : Files
  disk_b = (replace_file env (get_slot_metadata_file s.sm slot_b) doc_b disk_a).0

  slot_a_on_disk :
      (persist_slot_state env s).0.files (get_slot_metadata_file s.sm slot_a)
      ≡ some (document (metadata_fields s.sm.slot_a_info))
  unfolding persist_slot_state text_eq
  slot_a_on_disk =
      sibling env s.sm.config.slots_dir (codes "/global.json") (codes "/slot-A/metadata.json") doc_g
        disk_b refl refl placed
      ∙ sibling env s.sm.config.slots_dir (codes "/slot-B/metadata.json")
          (codes "/slot-A/metadata.json") doc_b disk_a refl refl refl
      ∙ (replace_file_healthy env healthy (get_slot_metadata_file s.sm slot_a) doc_a s.files).1

  slot_b_on_disk :
      (persist_slot_state env s).0.files (get_slot_metadata_file s.sm slot_b)
      ≡ some (document (metadata_fields s.sm.slot_b_info))
  unfolding persist_slot_state text_eq
  slot_b_on_disk =
      sibling env s.sm.config.slots_dir (codes "/global.json") (codes "/slot-B/metadata.json") doc_g
        disk_b refl refl placed
      ∙ (replace_file_healthy env healthy (get_slot_metadata_file s.sm slot_b) doc_b disk_a).1

  global_on_disk :
      (persist_slot_state env s).0.files s.sm.config.state_file
      ≡ some (document (global_fields s.sm.active_slot))
  unfolding persist_slot_state
  global_on_disk = (replace_file_healthy env healthy s.sm.config.state_file doc_g disk_b).1

-- The global file gives the active slot back.
read_active :
    (slot : SlotId)
    → extract_json_value (document (global_fields slot)) (codes "active_slot")
      ≡ slot_id_to_string slot
unfolding extract_json_value escape_json_string text_eq
read_active slot_a = refl
read_active slot_b = refl

-- A new process on the same disk.
abbrev pub restart : Session → Session
restart s = record s { sm = set_config new_manager s.sm.config }

global_loaded :
    (s : Session) (slot : SlotId)
    → s.files s.sm.config.state_file ≡ some (document (global_fields slot))
    → read_global_state s ≡ (record s { sm = record s.sm { active_slot = slot } }, true)
unfolding read_global_state
global_loaded s slot_a h = rw h (rw (read_active slot_a) refl)
global_loaded s slot_b h = rw h (rw (read_active slot_b) refl)

metadata_loaded :
    (s : Session) (slot : SlotId) (info : SlotInfo)
    → info.slot_id ≡ slot
    → IsStorable info
    → s.files (get_slot_metadata_file s.sm slot) ≡ some (document (metadata_fields info))
    → read_slot_metadata slot s ≡ (record s { sm = set_info slot info s.sm }, true)
unfolding read_slot_metadata
metadata_loaded s slot info e safe h = rw h (
    ap (λ i. (record s { sm = set_info slot i s.sm }, true))
      (ap (λ d. parse_metadata d (document (metadata_fields info))) (sym e)
        ∙ parse_metadata-document info safe))

-- Loading as three reads that succeed.
load_steps :
    (s s1 s2 s3 : Session)
    → read_global_state s ≡ (s1, true)
    → read_slot_metadata slot_a s1 ≡ (s2, true)
    → read_slot_metadata slot_b s2 ≡ (s3, true)
    → load_slot_state s ≡ (s3, true)
unfolding load_slot_state
load_steps s s1 s2 s3 h ha hb = rw h (rw ha (rw hb refl))

-- On a healthy system with the state file beside the slots, a process that starts after storable
-- slots were persisted loads both slots and the active one as they were.
pub load_slot_state-persist :
    (env : Env) (s : Session)
    → IsHealthy env
    → IsPlaced s.sm.config
    → s.sm.slot_a_info.slot_id ≡ slot_a
    → s.sm.slot_b_info.slot_id ≡ slot_b
    → IsStorable s.sm.slot_a_info
    → IsStorable s.sm.slot_b_info
    → load_slot_state (restart (persist_slot_state env s).0) ≡ ((persist_slot_state env s).0, true)
unfolding persist_slot_state
load_slot_state-persist env s healthy placed ea eb sa sb =
    let s0 = restart (persist_slot_state env s).0 in
    let s1 = record s0 { sm = record s0.sm { active_slot = s.sm.active_slot } } in
    let s2 = record s1 { sm = set_info slot_a s.sm.slot_a_info s1.sm } in
    let s3 = record s2 { sm = set_info slot_b s.sm.slot_b_info s2.sm } in
    load_steps s0 s1 s2 s3 (global_loaded s0 s.sm.active_slot (global_on_disk env healthy s placed))
      (metadata_loaded s1 slot_a s.sm.slot_a_info ea sa (slot_a_on_disk env healthy s placed))
      (metadata_loaded s2 slot_b s.sm.slot_b_info eb sb (slot_b_on_disk env healthy s placed))
