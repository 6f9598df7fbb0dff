-- ===== src/Device/State.antt =====
-- The state that the device keeps in `state.conf` (include/device/device_state.h,
-- src/device/device_state.cpp).
pub mod Persist
use embedded_linux_ota.Prelude.{
  ℕ, Bool, true, false, [], ◌∷◌, ◌++◌, Option, none, some, ◌>>=◌, if◌then◌else◌, get_or,
}
use embedded_linux_ota.Text.{Text, codes, text_eq}
use embedded_linux_ota.Text.Decimal.{int_to_string, stoi}
use embedded_linux_ota.Text.Lines.{lines}
use embedded_linux_ota.Fs.{Files, Env, write_unflushed}
use embedded_linux_ota.Device.{read_lines, open_file}

pub data UpdateState : Type 0 where
  idle checking downloading verifying installing pending_reboot rebooting : UpdateState
  health_check success confirmed failure rollback recovery : UpdateState

-- `boot_attempts` is the 32-bit pattern of an `int`.
pub record PersistentState : Type 0 where
  pub current_version : Text
  pub active_slot : Text
  pub pending_slot : Text
  pub pending_version : Text
  pub update_state : UpdateState
  pub boot_attempts : ℕ
  pub rollback_reason : Text

unfoldable pub update_state_to_string : UpdateState → Text
update_state_to_string idle = codes "IDLE"
update_state_to_string checking = codes "CHECKING"
update_state_to_string downloading = codes "DOWNLOADING"
update_state_to_string verifying = codes "VERIFYING"
update_state_to_string installing = codes "INSTALLING"
update_state_to_string pending_reboot = codes "PENDING_REBOOT"
update_state_to_string rebooting = codes "REBOOTING"
update_state_to_string health_check = codes "HEALTH_CHECK"
update_state_to_string success = codes "SUCCESS"
update_state_to_string confirmed = codes "CONFIRMED"
update_state_to_string failure = codes "FAILURE"
update_state_to_string rollback = codes "ROLLBACK"
update_state_to_string recovery = codes "RECOVERY"

unfoldable pub string_to_update_state : Text → UpdateState
unfolding text_eq
string_to_update_state str =
    if text_eq str (codes "IDLE")
    then idle
    else if text_eq str (codes "CHECKING")
    then checking
    else if text_eq str (codes "DOWNLOADING")
    then downloading
    else if text_eq str (codes "VERIFYING")
    then verifying
    else if text_eq str (codes "INSTALLING")
    then installing
    else if text_eq str (codes "PENDING_REBOOT")
    then pending_reboot
    else if text_eq str (codes "REBOOTING")
    then rebooting
    else if text_eq str (codes "HEALTH_CHECK")
    then health_check
    else if text_eq str (codes "SUCCESS")
    then success
    else if text_eq str (codes "CONFIRMED")
    then confirmed
    else if text_eq str (codes "FAILURE")
    then failure
    else if text_eq str (codes "ROLLBACK")
    then rollback
    else if text_eq str (codes "RECOVERY")
    then recovery
    else idle

abbrev pub new_state : PersistentState
new_state = record {
  current_version = [];
  active_slot = [];
  pending_slot = [];
  pending_version = [];
  update_state = idle;
  boot_attempts = 0;
  rollback_reason = [];
}

-- The tests on the key; a number that `stoi` refuses counts as 0.
unfoldable pub assign_state : PersistentState → Text → Text → PersistentState
unfolding text_eq string_to_update_state stoi
assign_state state key value =
    if text_eq key (codes "current_version")
    then record state { current_version = value }
    else if text_eq key (codes "active_slot")
    then record state { active_slot = value }
    else if text_eq key (codes "pending_slot")
    then record state { pending_slot = value }
    else if text_eq key (codes "pending_version")
    then record state { pending_version = value }
    else if text_eq key (codes "update_state")
    then record state { update_state = string_to_update_state value }
    else if text_eq key (codes "boot_attempts")
    then record state { boot_attempts = get_or 0 (stoi value) }
    else if text_eq key (codes "rollback_reason")
    then record state { rollback_reason = value }
    else state

abbrev pub state_file : Text → Text
state_file state_dir = state_dir ++ codes "/state.conf"

unfoldable pub load_state : (Text → Bool) → Files → Text → Option PersistentState
unfolding lines read_lines assign_state
load_state can_read fs state_dir = do
  content ← open_file can_read fs (state_file state_dir)
  some (read_lines assign_state new_state (lines content))

-- One of the lines that are written, before the rest.
abbrev pub put_line : Text → Text → Text → Text
put_line name value rest = name ++ (value ++ (b'\n' ∷ rest))

-- What `save_state` writes to the stream.
abbrev pub state_text : PersistentState → Text
state_text state = put_line (codes "current_version=") state.current_version (
    put_line (codes "active_slot=") state.active_slot (
      put_line (codes "pending_slot=") state.pending_slot (
        put_line (codes "pending_version=") state.pending_version (
          put_line (codes "update_state=") (update_state_to_string state.update_state) (
            put_line (codes "boot_attempts=") (int_to_string state.boot_attempts)
              (put_line (codes "rollback_reason=") state.rollback_reason []))))))

-- The stream is asked before it is flushed.
unfoldable pub save_state : Env → PersistentState → Text → Files → Files × Bool
unfolding write_unflushed update_state_to_string int_to_string
save_state env state state_dir fs = write_unflushed env (state_file state_dir) (state_text state) fs

-- `has_dir` is whether the directory is there or can be made.
unfoldable pub initialize_state : Env → Bool → Text → Text → Text → Files → Files × Bool
unfolding save_state
initialize_state env has_dir state_dir version slot fs =
    if has_dir
    then save_state env (record new_state { current_version = version; active_slot = slot })
        state_dir fs
    else (fs, false)
