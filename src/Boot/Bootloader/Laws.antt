-- ===== src/Boot/Bootloader/Laws.antt =====
-- What the bootloader's operations promise to the boot control above it.
use embedded_linux_ota.Prelude.{
  ◌+◌, ◌%◌, ◌<◌, true, false, some, ◌≡◌, refl, arith, ap, ◌∙◌, if◌then◌else◌,
}
use embedded_linux_ota.Text.Decimal.{int_limit, int_modulus}
use embedded_linux_ota.Fs.{Env, IsHealthy, tmp_of}
use embedded_linux_ota.Fs.Replace.{replace_file_cases, replace_file_healthy}
use embedded_linux_ota.Slot.State.{SlotId, slot_a, slot_b}
use embedded_linux_ota.Boot.Bootloader.{
  no_error, persistence_error, boot_attempt_update_failed, BootloaderState, SimulatedBootloader,
  Session, new_bootloader, get_state, state_to_json, persist_state, load_state, state_from_json,
}
use embedded_linux_ota.Boot.Bootloader.Operations.{
  set_next_boot_slot, clear_next_boot_slot, increment_boot_attempts, mark_boot_started,
}
use embedded_linux_ota.Boot.Bootloader.Document.{restored, state_from_json-state_to_json}

-- Persisting changes nothing in memory but the last error, which says whether it succeeded; then the
-- file holds the new state, as far as it was stored, and else what it held.
pub persist_state_cases :
    (env : Env) (s : Session)
    → (let (s1, done) = persist_state env s in
        (s1.bl ≡ record s.bl { last_error = if done then no_error else persistence_error })
        × (s1.files s.bl.state_file ≡ (
            if done
            then some (env.stored (tmp_of s.bl.state_file) (state_to_json s.bl))
            else s.files s.bl.state_file)))
unfolding persist_state
persist_state_cases env s =
    ground (arith, replace_file_cases env s.bl.state_file (state_to_json s.bl) s.files)

-- Whether or not the file could be written, the operations have changed the state in memory; the
-- result is what persisting it returned.
pub set_next_boot_slot_lem :
    (env : Env) (slot : SlotId) (s : Session)
    → (get_state (set_next_boot_slot env slot s).0.bl
        ≡ record (get_state s.bl) { next_boot_slot = slot; next_boot_slot_set = true })
unfolding set_next_boot_slot persist_state
set_next_boot_slot_lem env slot_a s = ground arith
set_next_boot_slot_lem env slot_b s = ground arith

pub clear_next_boot_slot_lem :
    (env : Env) (s : Session)
    → (get_state (clear_next_boot_slot env s).0.bl ≡ record (get_state s.bl) {
      next_boot_slot = s.bl.current_slot;
      next_boot_slot_set = false;
    })
unfolding clear_next_boot_slot persist_state
clear_next_boot_slot_lem env s = ground arith

-- A boot makes its slot current, ends the pending boot and counts one attempt, an `int` that wraps.
abbrev pub booted : SlotId → BootloaderState → BootloaderState
booted slot_a st = record st {
  current_slot = slot_a;
  next_boot_slot = slot_a;
  next_boot_slot_set = false;
  boot_attempts_a = (st.boot_attempts_a + 1) % int_modulus;
}
booted slot_b st = record st {
  current_slot = slot_b;
  next_boot_slot = slot_b;
  next_boot_slot_set = false;
  boot_attempts_b = (st.boot_attempts_b + 1) % int_modulus;
}

-- A boot that is started makes its slot current, ends the pending boot and counts an attempt in
-- memory, also where it cannot be written; then the last error says so.
pub mark_boot_started_lem :
    (env : Env) (slot : SlotId) (s : Session)
    → (let (s1, done) = mark_boot_started env slot s in
        (get_state s1.bl ≡ booted slot (get_state s.bl))
        × (s1.bl.last_error ≡ (if done then no_error else boot_attempt_update_failed)))
unfolding mark_boot_started increment_boot_attempts persist_state
mark_boot_started_lem env slot_a s = ground arith
mark_boot_started_lem env slot_b s = ground arith

-- A new process with the same configuration on the same disk.
abbrev pub restart : Session → Session
restart s = record s {
  bl = record new_bootloader { state_dir = s.bl.state_dir; state_file = s.bl.state_file };
}

pub persisted :
    (env : Env) (s : Session)
    → IsHealthy env
    → (persist_state env s).0.files s.bl.state_file ≡ some (state_to_json s.bl)
unfolding persist_state
persisted env s healthy =
    let (done, on_disk) =
      replace_file_healthy env healthy s.bl.state_file (state_to_json s.bl) s.files in
    ground arith

pub loaded :
    (env : Env) (s : Session) (bl : SimulatedBootloader)
    → s.files s.bl.state_file ≡ some (state_to_json bl)
    → load_state env s ≡ state_from_json (state_to_json bl) s
unfolding load_state
loaded env s bl h = rw h refl

-- On a healthy system, a bootloader that starts after the state was persisted has the same
-- slots, pending boot and counters, which are not negative, and reports no error.
pub load_state-persist :
    (env : Env) (s : Session)
    → IsHealthy env
    → s.bl.boot_attempts_a < int_limit
    → s.bl.boot_attempts_b < int_limit
    → (let (s1, done) = load_state env (restart (persist_state env s).0) in
        (s1.bl ≡ record s.bl { last_error = no_error }) × (done ≡ true))
load_state-persist env s healthy small_a small_b =
    let s0 = (persist_state env s).0 in
    let kept = (persist_state_cases env s).0 in
    let place = ap (λ bl. bl.state_file) kept in
    let done =
      loaded env (restart s0) s.bl (ap s0.files place ∙ persisted env s healthy)
      ∙ state_from_json-state_to_json s.bl (restart s0) small_a small_b in
    (ap (λ p. p.0.bl) done ∙ ap (restored s.bl) kept, ap (λ p. p.1) done)
