-- ===== src/Program/Cli/BootCycle.antt =====
-- Calls of the command `boot` of the command line tool one after another, each a process of its own
-- (src/cli_main.cpp).
use embedded_linux_ota.Prelude.{
  ◌+◌, ◌<◌, ◌%◌, Bool, true, false, [], ◌∷◌, ◌++◌, none, some, ◌≡◌, refl, ap, ◌∙◌, arith,
}
use embedded_linux_ota.Text.{Text, codes, text_eq, is_empty}
use embedded_linux_ota.Text.Decimal.{int_limit, int_modulus}
use embedded_linux_ota.Fs.{Files, Env, IsHealthy}
use embedded_linux_ota.Fs.Replace.{replace_file_healthy}
use embedded_linux_ota.Slot.State.{SlotId, slot_a, slot_b, slot_eq}
use embedded_linux_ota.Slot.Manager as Slots
use embedded_linux_ota.Slot.Manager.{
  SlotManager, get_slot_info, read_slot_metadata, read_global_state,
}
use embedded_linux_ota.Boot.Bootloader.{SimulatedBootloader}
use embedded_linux_ota.Boot.Interface.{simulated}
use embedded_linux_ota.Boot.Control as Control
use embedded_linux_ota.Boot.Control.{
  SimulatedBootControl, boot_state_to_json, persist_boot_state, load_boot_state,
  boot_state_from_json, validate_boot_target, set_attempt_count, get_boot_attempt_count,
}
use embedded_linux_ota.Boot.Control.Operations as ControlOps
use embedded_linux_ota.Boot.Control.Document.{boot_state_from_json-boot_state_to_json}
use embedded_linux_ota.Program.Cli.{CliOptions}
use embedded_linux_ota.Program.Cli.Release.{exit_of}
use embedded_linux_ota.Program.Cli.Boot.{
  BootSession, cli_slots, cli_boot, target_slot, boot_set, boot_command, boot_result,
}
use embedded_linux_ota.Program.Cli.Cycle.{not_empty}

abbrev BootControl : Type 0
BootControl = SimulatedBootControl SimulatedBootloader

abbrev pub control_dir : CliOptions → Text
control_dir o = o.state_dir ++ codes "/boot"

abbrev pub control_file : CliOptions → Text
control_file o = o.state_dir ++ codes "/boot/boot_state.json"

-- The state of the boot control as the file holds it.
pub record IsStored (o : CliOptions) (fs : Files) (bc : BootControl) : Type 0 where
  pub stored : fs (control_file o) ≡ some (boot_state_to_json bc)
  pub small_a : bc.boot_attempts_a < int_limit
  pub small_b : bc.boot_attempts_b < int_limit

-- The slots that the command loads.
abbrev pub slots_of : CliOptions → Files → SlotManager
slots_of o fs = (Slots.load_slot_state (cli_slots o fs)).0.sm

-- The boot control that a process has that loads the state.
abbrev in_tool : CliOptions → BootControl → BootControl
in_tool o bc = record bc {
  boot_state_dir = control_dir o;
  boot_state_file = control_file o;
  bootloader = none;
}

abbrev pub targeted : SlotId → BootControl → BootControl
targeted slot bc = record bc { next_slot = slot; next_slot_set = true }

abbrev pub booted : SlotId → BootControl → BootControl
booted slot bc =
    record (set_attempt_count slot ((get_boot_attempt_count slot bc + 1) % int_modulus) bc) {
      current_slot = slot;
      next_slot = slot;
      next_slot_set = false;
    }

load_slot_state-files : (s : Slots.Session) → (Slots.load_slot_state s).0.files ≡ s.files
unfolding Slots.load_slot_state read_global_state read_slot_metadata
load_slot_state-files s = ground arith

module _ (env : Env) (has_dir : Text → Bool) where
  -- Without a bootloader the state is that of the file.
  initialize_lem :
      (place file json : Text) (fs : Files)
      → is_empty place ≡ false
      → has_dir place ≡ true
      → fs file ≡ some json
      → (let s : BootSession env has_dir = record {
        bc = Control.set_config place file Control.new_control;
        files = fs;
      } in
          ControlOps.initialize env (simulated env has_dir) has_dir s ≡ boot_state_from_json json s)
  unfolding ControlOps.initialize load_boot_state
  initialize_lem [] file json fs named dir stored = absurd (cc)
  initialize_lem (c ∷ place) file json fs named dir stored =
      rw (dir, ControlOps.initialize, load_boot_state, stored) refl

module _ (env : Env) (has_dir : Text → Bool) (healthy : IsHealthy env) (o : CliOptions)
    (dir : has_dir (control_dir o) ≡ true) where
  cli_boot_lem :
      (fs : Files) (bc : BootControl)
      → IsStored o fs bc
      → cli_boot env has_dir o fs ≡ record { bc = in_tool o bc; files = fs }
  unfolding cli_boot
  cli_boot_lem fs bc disk =
      let s : BootSession env has_dir = record { bc = in_tool o Control.new_control; files = fs } in
      ap (λ r. r.0)
        (initialize_lem env has_dir (control_dir o) (control_file o) (boot_state_to_json bc) fs
            (not_empty o.state_dir b'/' (codes "boot")) dir disk.stored
          ∙ boot_state_from_json-boot_state_to_json bc s disk.small_a disk.small_b)

  persist_boot_ok :
      (s : BootSession env has_dir)
      → ((persist_boot_state env s).1 ≡ true)
        × ((persist_boot_state env s).0.files s.bc.boot_state_file ≡ some (boot_state_to_json s.bc))
  unfolding persist_boot_state
  persist_boot_ok s =
      let (done, on_disk) =
        replace_file_healthy env healthy s.bc.boot_state_file (boot_state_to_json s.bc) s.files in
      ground arith

  set_ok :
      (slot : SlotId) (bc : BootControl) (fs : Files)
      → slot_eq slot bc.current_slot ≡ false
      → (let r =
            ControlOps.set_next_boot_slot env
              (simulated env has_dir)
              slot
              (record { bc = in_tool o bc; files = fs }) in
          (r.1 ≡ true)
          × (r.0.files (control_file o) ≡ some (boot_state_to_json (targeted slot bc))))
  unfolding ControlOps.set_next_boot_slot
  set_ok slot_a bc fs other =
      let s : BootSession env has_dir = record {
        bc = in_tool o (targeted slot_a bc);
        files = fs;
      } in
      rw (other, ControlOps.set_next_boot_slot) (persist_boot_ok s)
  set_ok slot_b bc fs other =
      let s : BootSession env has_dir = record {
        bc = in_tool o (targeted slot_b bc);
        files = fs;
      } in
      rw (other, ControlOps.set_next_boot_slot) (persist_boot_ok s)

  simulate_ok :
      (slot : SlotId) (bc : BootControl) (fs : Files)
      → (let r =
            ControlOps.simulate_boot env
              (simulated env has_dir)
              (record { bc = in_tool o (targeted slot bc); files = fs }) in
          (r.1 ≡ true) × (r.0.files (control_file o) ≡ some (boot_state_to_json (booted slot bc))))
  unfolding ControlOps.simulate_boot
  simulate_ok slot_a bc fs =
      persist_boot_ok (record { bc = in_tool o (booted slot_a bc); files = fs })
  simulate_ok slot_b bc fs =
      persist_boot_ok (record { bc = in_tool o (booted slot_b bc); files = fs })

  command_set :
      (arg : Text) (slot : SlotId) (fs : Files) (s : BootSession env has_dir)
      → cli_boot env has_dir o fs ≡ s
      → target_slot arg ≡ some slot
      → validate_boot_target slot (slots_of o fs) s.bc ≡ true
      → boot_command env has_dir o (codes "set" ∷ arg ∷ []) fs
        ≡ boot_result env has_dir (ControlOps.set_next_boot_slot env (simulated env has_dir) slot s)
  unfolding boot_command boot_set target_slot text_eq
  command_set [] slot fs s e names valid = absurd (cc)
  command_set (c ∷ arg) slot fs s e names valid =
      ap (λ f. boot_set env has_dir (slots_of o fs) (c ∷ arg) (cli_boot env has_dir o f))
        (load_slot_state-files (cli_slots o fs))
      ∙ ap (boot_set env has_dir (slots_of o fs) (c ∷ arg)) e
      ∙ rw (names, boot_set) (rw valid refl)

  command_simulate :
      (fs : Files) (s : BootSession env has_dir)
      → cli_boot env has_dir o fs ≡ s
      → boot_command env has_dir o (codes "simulate" ∷ []) fs
        ≡ boot_result env has_dir (ControlOps.simulate_boot env (simulated env has_dir) s)
  unfolding boot_command text_eq
  command_simulate fs s e =
      ap
        (λ f.
          boot_result env has_dir
            (ControlOps.simulate_boot env (simulated env has_dir) (cli_boot env has_dir o f)))
        (load_slot_state-files (cli_slots o fs))
      ∙ ap (λ t. boot_result env has_dir (ControlOps.simulate_boot env (simulated env has_dir) t)) e

  other_slot :
      (slot : SlotId) (sm : SlotManager) (bc : BootControl)
      → validate_boot_target slot sm bc ≡ true
      → slot_eq slot bc.current_slot ≡ false
  unfolding validate_boot_target
  other_slot slot sm bc h = ground arith

  set_lem :
      (arg : Text) (slot : SlotId) (fs : Files) (bc : BootControl)
      → IsStored o fs bc
      → target_slot arg ≡ some slot
      → validate_boot_target slot (slots_of o fs) bc ≡ true
      → (let (fs1, code) = boot_command env has_dir o (codes "set" ∷ arg ∷ []) fs in
          (code ≡ 0) × IsStored o fs1 (targeted slot bc))
  unfolding validate_boot_target
  set_lem arg slot fs bc disk names valid =
      let s : BootSession env has_dir = record { bc = in_tool o bc; files = fs } in
      let (good, stored) = set_ok slot bc fs (other_slot slot (slots_of o fs) bc valid) in
      rw (command_set arg slot fs s (cli_boot_lem fs bc disk) names valid) (
        ap exit_of good,
        record { stored = stored; small_a = disk.small_a; small_b = disk.small_b },
      )

  simulate_lem :
      (slot : SlotId) (fs : Files) (bc : BootControl)
      → IsStored o fs (targeted slot bc)
      → (let (fs1, code) = boot_command env has_dir o (codes "simulate" ∷ []) fs in
          (code ≡ 0) × (fs1 (control_file o) ≡ some (boot_state_to_json (booted slot bc))))
  simulate_lem slot fs bc disk =
      let s : BootSession env has_dir = record { bc = in_tool o (targeted slot bc); files = fs } in
      let (good, stored) = simulate_ok slot bc fs in
      rw (command_simulate fs s (cli_boot_lem fs (targeted slot bc) disk)) (ap exit_of good, stored)

-- On a healthy system with a directory for the boot control, and with a state of it on disk whose
-- counters are not negative: the call `boot set` with the name of a slot that the check of boot
-- targets accepts for the slots on disk, and then the call `boot simulate`, each in a process of
-- its own, both end with 0, and the state on disk is then the old one with that slot current, no
-- pending boot and one more attempt of that slot, an `int` that wraps.
pub boot_cycle :
    (env : Env) (has_dir : Text → Bool) (o : CliOptions) (arg : Text) (slot : SlotId) (fs : Files)
    (bc : BootControl)
    → IsHealthy env
    → has_dir (control_dir o) ≡ true
    → IsStored o fs bc
    → target_slot arg ≡ some slot
    → validate_boot_target slot (slots_of o fs) bc ≡ true
    → (let (fs1, code1) = boot_command env has_dir o (codes "set" ∷ arg ∷ []) fs in
        let (fs2, code2) = boot_command env has_dir o (codes "simulate" ∷ []) fs1 in
        (code1 ≡ 0)
        × (code2 ≡ 0)
        × (fs2 (control_file o) ≡ some (boot_state_to_json (booted slot bc))))
boot_cycle env has_dir o arg slot fs bc healthy dir disk names valid =
    let (code1, disk1) = set_lem env has_dir healthy o dir arg slot fs bc disk names valid in
    let (code2, stored) =
      simulate_lem env has_dir healthy o dir slot
        (boot_command env has_dir o (codes "set" ∷ arg ∷ []) fs).0 bc disk1 in
    (code1, code2, stored)
