-- ===== src/Slot/Manager/Queries.antt =====
-- The queries of `SlotManager` that change nothing.
use embedded_linux_ota.Prelude.{Bool}
use embedded_linux_ota.Text.{Text}
use embedded_linux_ota.Slot.State.{
  SlotId, slot_a, slot_b, active, empty, slot_state_eq, SlotInfo, is_valid,
}
use embedded_linux_ota.Slot.Manager.{SlotManager}

abbrev pub get_active_slot : SlotManager → SlotId
get_active_slot sm = sm.active_slot

abbrev pub get_slot_version : SlotManager → SlotId → Text
get_slot_version sm slot_a = sm.slot_a_info.version
get_slot_version sm slot_b = sm.slot_b_info.version

abbrev pub is_slot_valid : SlotManager → SlotId → Bool
is_slot_valid sm slot_a = is_valid sm.slot_a_info
is_slot_valid sm slot_b = is_valid sm.slot_b_info

abbrev pub is_slot_active : SlotManager → SlotId → Bool
is_slot_active sm slot_a = slot_state_eq sm.slot_a_info.state active
is_slot_active sm slot_b = slot_state_eq sm.slot_b_info.state active

abbrev pub is_slot_empty : SlotManager → SlotId → Bool
is_slot_empty sm slot_a = slot_state_eq sm.slot_a_info.state empty
is_slot_empty sm slot_b = slot_state_eq sm.slot_b_info.state empty

abbrev pub get_slot_a_info : SlotManager → SlotInfo
get_slot_a_info sm = sm.slot_a_info

abbrev pub get_slot_b_info : SlotManager → SlotInfo
get_slot_b_info sm = sm.slot_b_info
