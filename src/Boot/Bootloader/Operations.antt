-- ===== src/Boot/Bootloader/Operations.antt =====
-- The operations of `SimulatedBootloader` on the slots and the counters.
use embedded_linux_ota.Prelude.{ℕ, ◌+◌, ◌%◌, Bool, true, false, not, if◌then◌else◌}
use embedded_linux_ota.Text.Decimal.{int_modulus}
use embedded_linux_ota.Fs.{Env}
use embedded_linux_ota.Slot.State.{SlotId}
use embedded_linux_ota.Boot.Bootloader.{
  Session, fail, get_boot_attempts, set_boot_attempts, validate_slot, persist_state, no_error,
  invalid_slot, boot_attempt_update_failed,
}

unfoldable pub set_next_boot_slot : Env → SlotId → Session → Session × Bool
unfolding persist_state
set_next_boot_slot env slot s =
    if not (validate_slot slot)
    then fail invalid_slot s
    else persist_state env (record s {
      bl = record s.bl { next_boot_slot = slot; next_boot_slot_set = true; last_error = no_error };
    })

unfoldable pub clear_next_boot_slot : Env → Session → Session × Bool
unfolding persist_state
clear_next_boot_slot env s =
    persist_state env
      (record s { bl = record s.bl { next_boot_slot_set = false; last_error = no_error } })

-- The new value of a counter, then `persist_state`.
abbrev count : Env → SlotId → ℕ → Session → Session × Bool
count env slot n s =
    if not (validate_slot slot)
    then fail invalid_slot s
    else persist_state env
        (record s { bl = record (set_boot_attempts slot n s.bl) { last_error = no_error } })

unfoldable pub increment_boot_attempts : Env → SlotId → Session → Session × Bool
unfolding persist_state
increment_boot_attempts env slot s =
    count env slot ((get_boot_attempts slot s.bl + 1) % int_modulus) s

unfoldable pub reset_boot_attempts : Env → SlotId → Session → Session × Bool
unfolding persist_state
reset_boot_attempts env slot s = count env slot 0 s

unfoldable pub mark_boot_started : Env → SlotId → Session → Session × Bool
unfolding increment_boot_attempts
mark_boot_started env slot s =
    if not (validate_slot slot)
    then fail invalid_slot s
    else (let booted = record s {
      bl = record s.bl { current_slot = slot; next_boot_slot_set = false };
    } in
        let (s1, done) = increment_boot_attempts env slot booted in
        if done
        then (record s1 { bl = record s1.bl { last_error = no_error } }, true)
        else fail boot_attempt_update_failed s1)
