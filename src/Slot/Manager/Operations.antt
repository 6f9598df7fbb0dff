-- ===== src/Slot/Manager/Operations.antt =====
-- The operations of `SlotManager`.
use embedded_linux_ota.Prelude.{Bool, true, false, not, ◌&&◌, ◌||◌, [], if◌then◌else◌}
use embedded_linux_ota.Text.{Text, text_eq, is_empty}
use embedded_linux_ota.Fs.{Env}
use embedded_linux_ota.Slot.State.{
  SlotId, slot_a, slot_b, slot_eq, SlotState, active, inactive, prepared, bootable, invalid,
  slot_state_eq, SlotInfo, is_valid, is_version_text,
}
use embedded_linux_ota.Slot.Manager.{
  SlotConfig, SlotManager, Session, blank_info, get_inactive_slot, get_slot_info, set_info,
  persist_slot_state, load_slot_state,
}

-- The state that `initialize_slots` starts from where nothing can be loaded.
abbrev pub default_info : SlotConfig → SlotId → SlotInfo
default_info config slot =
    let chosen = slot_eq slot config.default_active_slot in
    let named = chosen && not (is_empty config.default_version) in
    record (blank_info slot) {
      state = if chosen then active else inactive;
      version = if named then config.default_version else [];
      hardware_version = if named then config.default_hardware_version else [];
    }

-- The assignments of `initialize_slots` where nothing can be loaded.
abbrev pub fresh_slots : SlotManager → SlotManager
fresh_slots sm = record sm {
  slot_a_info = default_info sm.config slot_a;
  slot_b_info = default_info sm.config slot_b;
  active_slot = sm.config.default_active_slot;
}

unfoldable pub initialize_slots : Env → Session → Session × Bool
unfolding load_slot_state persist_slot_state
initialize_slots env s =
    let (s1, loaded) = load_slot_state s in
    if loaded
    then (s1, true)
    else ((persist_slot_state env (record s1 { sm = fresh_slots s1.sm })).0, true)

abbrev with_info : Env → SlotId → SlotInfo → Session → Session × Bool
with_info env slot info s = persist_slot_state env (record s { sm = set_info slot info s.sm })

unfoldable pub set_slot_state : Env → SlotId → SlotState → Session → Session × Bool
unfolding persist_slot_state
set_slot_state env slot state s =
    with_info env slot (record (get_slot_info s.sm slot) { state = state }) s

unfoldable pub set_slot_version : Env → SlotId → Text → Session → Session × Bool
unfolding persist_slot_state
set_slot_version env slot version s =
    with_info env slot (record (get_slot_info s.sm slot) { version = version }) s

unfoldable pub set_slot_sha256 : Env → SlotId → Text → Session → Session × Bool
unfolding persist_slot_state
set_slot_sha256 env slot sha256 s =
    with_info env slot (record (get_slot_info s.sm slot) { sha256 = sha256 }) s

unfoldable pub set_slot_hardware_version : Env → SlotId → Text → Session → Session × Bool
unfolding persist_slot_state
set_slot_hardware_version env slot hw_version s =
    with_info env slot (record (get_slot_info s.sm slot) { hardware_version = hw_version }) s

unfoldable pub validate_slot : SlotManager → SlotId → Bool
validate_slot sm slot =
    let info = get_slot_info sm slot in
    if not (slot_eq info.slot_id slot)
    then false
    else if slot_state_eq info.state invalid
    then false
    else if slot_state_eq info.state active && not (slot_eq slot sm.active_slot)
    then false
    else if slot_state_eq info.state inactive && slot_eq slot sm.active_slot
    then false
    else is_version_text info.version

unfoldable pub validate_slot_integrity : SlotManager → SlotId → Text → Bool
unfolding text_eq
validate_slot_integrity sm slot expected_sha256 =
    let info = get_slot_info sm slot in
    if not (is_valid info)
    then false
    else if is_empty info.sha256
    then false
    else text_eq info.sha256 expected_sha256

-- The assignments of `prepare_inactive_slot`; `now` is the time that it reads.
abbrev pub prepared_info : Text → Text → Text → Text → SlotManager → SlotInfo
prepared_info now version hardware_version sha256 sm =
    record (get_slot_info sm (get_inactive_slot sm)) {
      version = version;
      hardware_version = hardware_version;
      sha256 = sha256;
      state = prepared;
      installed_at = now;
    }

unfoldable pub prepare_inactive_slot : Env → Text → Text → Text → Text → Session → Session × Bool
unfolding persist_slot_state
prepare_inactive_slot env now version hardware_version sha256 s =
    let slot = get_inactive_slot s.sm in
    if slot_eq slot s.sm.active_slot
    then (s, false)
    else if not (is_version_text version)
    then (s, false)
    else with_info env slot (prepared_info now version hardware_version sha256 s.sm) s

-- The assignments of `switch_active_slot`, in its order.
abbrev pub promote_inactive : SlotManager → SlotManager
promote_inactive sm =
    let next = get_inactive_slot sm in
    let old = sm.active_slot in
    let demoted = set_info old (record (get_slot_info sm old) { state = inactive }) sm in
    let promoted = set_info next (record (get_slot_info demoted next) { state = active }) demoted in
    record promoted { active_slot = next }

-- The inactive slot's state allows a switch.
abbrev pub can_switch : SlotManager → Bool
can_switch sm =
    let next = get_slot_info sm (get_inactive_slot sm) in
    slot_state_eq next.state prepared || slot_state_eq next.state bootable

unfoldable pub switch_active_slot : Env → Session → Session × Bool
unfolding persist_slot_state
switch_active_slot env s =
    let next = get_slot_info s.sm (get_inactive_slot s.sm) in
    if not (slot_state_eq next.state prepared) && not (slot_state_eq next.state bootable)
    then (s, false)
    else persist_slot_state env (record s { sm = promote_inactive s.sm })
