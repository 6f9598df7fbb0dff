-- ===== src/Boot/Tests.antt =====
-- The bootloader and the boot control on concrete values.
use embedded_linux_ota.Prelude.{true, false, none, some, ◌≡◌, refl, arith, if◌then◌else◌}
use embedded_linux_ota.Text.{codes, text_eq}
use embedded_linux_ota.Fs.Examples.{good_env, good_env-IsHealthy, closed_env}
use embedded_linux_ota.Slot.State.{slot_b}
use embedded_linux_ota.Slot.Manager.{new_manager}
use embedded_linux_ota.Boot.Bootloader as Bl
use embedded_linux_ota.Boot.Bootloader.Operations as BlOps
use embedded_linux_ota.Boot.Bootloader.Document.{restored, state_from_json-state_to_json}
use embedded_linux_ota.Boot.Bootloader.Laws as BlLaws
use embedded_linux_ota.Boot.Interface.{Bootloader, IsBootloader, simulated, simulated-IsBootloader}
use embedded_linux_ota.Boot.Control.{
  Session, new_control, set_config, boot_state_to_json, boot_state_from_json, get_next_boot_slot,
  get_boot_attempt_count, reset_boot_attempt_count,
}
use embedded_linux_ota.Boot.Control.Document.{boot_state_from_json-boot_state_to_json}
use embedded_linux_ota.Boot.Control.Operations.{simulate_boot, prepare_next_boot}
use embedded_linux_ota.Boot.Control.Agreement.{
  IsAgreed, next_set, run_control, run_control-IsAgreed, prepare_next_boot_cases, simulate_boot_lem,
  simulate_boot-reset_boot_attempt_count,
}

-- A bootloader with one failed boot of slot B.
abbrev once : Bl.SimulatedBootloader
once = record Bl.new_bootloader {
  state_dir = codes "/b";
  state_file = codes "/b/s.json";
  boot_attempts_b = 1;
}

abbrev once_session : Bl.Session
once_session = record { bl = once; files = λ path. none }

bootloader_read_back :
    Bl.state_from_json (Bl.state_to_json once) once_session
    ≡ (record once_session { bl = restored once once }, true)
bootloader_read_back = state_from_json-state_to_json once once_session (omega arith) (omega arith)

load_state-persist_example :
    let (s1, done) =
      Bl.load_state good_env (BlLaws.restart (Bl.persist_state good_env once_session).0) in
    (s1.bl ≡ once) × (done ≡ true)
load_state-persist_example =
    BlLaws.load_state-persist good_env once_session good_env-IsHealthy (omega arith) (omega arith)

mark_boot_started_lem_instance :
    let (s1, done) = BlOps.mark_boot_started closed_env slot_b once_session in
    (Bl.get_state s1.bl ≡ BlLaws.booted slot_b (Bl.get_state once))
    × (s1.bl.last_error ≡ (if done then Bl.no_error else Bl.boot_attempt_update_failed))
mark_boot_started_lem_instance = BlLaws.mark_boot_started_lem closed_env slot_b once_session

abbrev ops : Bootloader Bl.SimulatedBootloader
ops = simulated good_env (λ path. true)

laws : IsBootloader ops
laws = simulated-IsBootloader good_env (λ path. true)

-- The boot control above that bootloader.
abbrev start : Session Bl.SimulatedBootloader
start = record {
  bc = record (set_config (codes "/c") (codes "/c/s.json") new_control) {
    bootloader = some once;
    boot_attempts_b = 1;
  };
  files = λ path. none;
}

start-IsAgreed : IsAgreed ops start.bc
start-IsAgreed = (once, refl, refl)

next_set_done : (run_control good_env ops (next_set slot_b) start).1 ≡ true
unfolding run_control text_eq BlOps.set_next_boot_slot
next_set_done = refl

run_control-IsAgreed_example : IsAgreed ops (run_control good_env ops (next_set slot_b) start).0.bc
run_control-IsAgreed_example =
    run_control-IsAgreed good_env ops (next_set slot_b) start laws start-IsAgreed next_set_done

-- The next boot is of slot B.
abbrev pending : Session Bl.SimulatedBootloader
pending = record start { bc = record start.bc { next_slot = slot_b; next_slot_set = true } }

boot_done : (simulate_boot good_env ops pending).1 ≡ true
unfolding simulate_boot text_eq BlOps.mark_boot_started
boot_done = refl

simulate_boot_lem_instance :
    let s1 = (simulate_boot good_env ops pending).0 in
    (pending.bc.next_slot_set ≡ true)
    × (s1.bc.current_slot ≡ slot_b)
    × (get_next_boot_slot s1.bc ≡ slot_b)
    × (simulate_boot good_env ops s1 ≡ (s1, false))
simulate_boot_lem_instance = simulate_boot_lem good_env ops pending laws boot_done

reset_boot_done :
    (simulate_boot good_env ops (reset_boot_attempt_count good_env slot_b pending).0).1 ≡ true
unfolding simulate_boot reset_boot_attempt_count text_eq BlOps.mark_boot_started
reset_boot_done = refl

-- The counter of slot B was reset, and is 2 after the next boot.
simulate_boot-reset_boot_attempt_count_example :
    get_boot_attempt_count slot_b
      (simulate_boot good_env ops (reset_boot_attempt_count good_env slot_b pending).0).0.bc
    ≡ 2
simulate_boot-reset_boot_attempt_count_example =
    simulate_boot-reset_boot_attempt_count good_env ops slot_b pending laws refl reset_boot_done

prepare_next_boot_cases_instance :
    prepare_next_boot good_env ops slot_b new_manager start ≡ (start, false)
prepare_next_boot_cases_instance = prepare_next_boot_cases good_env ops slot_b new_manager start

boot_state_from_json-boot_state_to_json_example :
    boot_state_from_json (boot_state_to_json pending.bc) start ≡ (pending, true)
boot_state_from_json-boot_state_to_json_example =
    boot_state_from_json-boot_state_to_json pending.bc start (omega arith) (omega arith)

-- Also a bootloader whose file cannot be written.
simulated-IsBootloader_instance : IsBootloader (simulated closed_env (λ path. true))
simulated-IsBootloader_instance = simulated-IsBootloader closed_env (λ path. true)
