-- ===== src/Program/Cli/Cycle.antt =====
-- Calls of the command line tool one after another, each a process of its own (src/cli_main.cpp).
use embedded_linux_ota.Prelude.{
  ℕ, ◌+◌, ◌<◌, ◌%◌, Bool, true, false, [], ◌∷◌, ◌++◌, some, ◌≡◌, refl, ap, ◌∙◌, arith,
}
use embedded_linux_ota.Text.{Text, codes, text_eq, is_empty}
use embedded_linux_ota.Text.Decimal.{int_limit, int_modulus}
use embedded_linux_ota.Fs.{Files, Env, IsHealthy}
use embedded_linux_ota.Fs.Replace.{replace_file_healthy}
use embedded_linux_ota.Slot.State.{SlotId, slot_a, slot_b}
use embedded_linux_ota.Boot.Bootloader as Loader
use embedded_linux_ota.Boot.Bootloader.{
  SimulatedBootloader, Session, no_error, new_bootloader, state_to_json, persist_state, load_state,
  set_boot_attempts, get_boot_attempts,
}
use embedded_linux_ota.Boot.Bootloader.Operations as LoaderOps
use embedded_linux_ota.Boot.Bootloader.Document.{restored, state_from_json-state_to_json}
use embedded_linux_ota.Boot.Bootloader.Laws.{persisted, loaded}
use embedded_linux_ota.Program.Cli.{CliOptions}
use embedded_linux_ota.Program.Cli.Boot.{
  target_slot, cli_loader, loader_set_next, loader_simulate, bootloader_command, loader_result,
  with_loader,
}
use embedded_linux_ota.Program.Cli.Release.{exit_of}

abbrev pub loader_dir : CliOptions → Text
loader_dir o = o.state_dir ++ codes "/bootloader"

abbrev pub loader_file : CliOptions → Text
loader_file o = o.state_dir ++ codes "/bootloader/bootloader_state.json"

-- The bootloader's state as the file holds it.
pub record IsOnDisk (o : CliOptions) (fs : Files) (bl : SimulatedBootloader) : Type 0 where
  pub stored : fs (loader_file o) ≡ some (state_to_json bl)
  pub small_a : bl.boot_attempts_a < int_limit
  pub small_b : bl.boot_attempts_b < int_limit

abbrev placed : CliOptions → SimulatedBootloader
placed o = record new_bootloader { state_dir = loader_dir o; state_file = loader_file o }

pub not_empty : (s : Text) (c : ℕ) (t : Text) → is_empty (s ++ (c ∷ t)) ≡ false
not_empty [] c t = refl
not_empty (d ∷ s) c t = refl

-- The choice of a slot, and its boot, in the state.
abbrev pub chosen : SlotId → SimulatedBootloader → SimulatedBootloader
chosen slot bl = record bl { next_boot_slot = slot; next_boot_slot_set = true }

abbrev pub cycled : SlotId → SimulatedBootloader → SimulatedBootloader
cycled slot bl =
    record (set_boot_attempts slot ((get_boot_attempts slot bl + 1) % int_modulus) bl) {
      current_slot = slot;
      next_boot_slot = slot;
      next_boot_slot_set = false;
    }

cycled_json :
    (slot : SlotId) (bl : SimulatedBootloader) (o : CliOptions)
    → state_to_json (cycled slot (restored bl (placed o))) ≡ state_to_json (cycled slot bl)
cycled_json slot_a bl o = refl
cycled_json slot_b bl o = refl

cycled-chosen :
    (slot : SlotId) (bl : SimulatedBootloader)
    → state_to_json (cycled slot (chosen slot bl)) ≡ state_to_json (cycled slot bl)
cycled-chosen slot_a bl = refl
cycled-chosen slot_b bl = refl

module _ (env : Env) (has_dir : Text → Bool) (healthy : IsHealthy env) (o : CliOptions)
    (dir : has_dir (loader_dir o) ≡ true) where
  loader_lem :
      (fs : Files) (bl : SimulatedBootloader)
      → IsOnDisk o fs bl
      → cli_loader env has_dir o fs ≡ (record { bl = restored bl (placed o); files = fs }, true)
  unfolding cli_loader Loader.initialize
  loader_lem fs bl disk =
      rw (not_empty o.state_dir b'/' (codes "bootloader"), dir)
        (loaded env (record { bl = placed o; files = fs }) bl disk.stored
          ∙ state_from_json-state_to_json bl (record { bl = placed o; files = fs }) disk.small_a
              disk.small_b)

  persist_ok : (s : Session) → (persist_state env s).1 ≡ true
  unfolding persist_state
  persist_ok s =
      let (done, on_disk) =
        replace_file_healthy env healthy s.bl.state_file (state_to_json s.bl) s.files in
      ground arith

  set_next_ok :
      (slot : SlotId) (s : Session)
      → ((LoaderOps.set_next_boot_slot env slot s).1 ≡ true)
        × ((LoaderOps.set_next_boot_slot env slot s).0.files s.bl.state_file
            ≡ some (state_to_json (chosen slot s.bl)))
  unfolding LoaderOps.set_next_boot_slot
  set_next_ok slot_a s =
      let s1 : Session = record s { bl = record (chosen slot_a s.bl) { last_error = no_error } } in
      (persist_ok s1, persisted env s1 healthy)
  set_next_ok slot_b s =
      let s1 : Session = record s { bl = record (chosen slot_b s.bl) { last_error = no_error } } in
      (persist_ok s1, persisted env s1 healthy)

  -- A boot of the slot that was chosen.
  started_ok :
      (slot : SlotId) (s : Session)
      → s.bl.next_boot_slot ≡ slot
      → ((LoaderOps.mark_boot_started env slot s).1 ≡ true)
        × ((LoaderOps.mark_boot_started env slot s).0.files s.bl.state_file
            ≡ some (state_to_json (cycled slot s.bl)))
  unfolding LoaderOps.mark_boot_started LoaderOps.increment_boot_attempts
  started_ok slot_a s e =
      let s1 : Session = record s {
        bl = record s.bl {
          current_slot = slot_a;
          next_boot_slot_set = false;
          boot_attempts_a = (s.bl.boot_attempts_a + 1) % int_modulus;
          last_error = no_error;
        };
      } in
      let good = persist_ok s1 in
      rw good (
        refl,
        persisted env s1 healthy ∙ λ i.
            some (state_to_json (record s1.bl { next_boot_slot = e i })),
      )
  started_ok slot_b s e =
      let s1 : Session = record s {
        bl = record s.bl {
          current_slot = slot_b;
          next_boot_slot_set = false;
          boot_attempts_b = (s.bl.boot_attempts_b + 1) % int_modulus;
          last_error = no_error;
        };
      } in
      let good = persist_ok s1 in
      rw good (
        refl,
        persisted env s1 healthy ∙ λ i.
            some (state_to_json (record s1.bl { next_boot_slot = e i })),
      )

  command_set_next :
      (arg : Text) (fs : Files) (s : Session)
      → cli_loader env has_dir o fs ≡ (s, true)
      → bootloader_command env has_dir o (codes "set-next" ∷ arg ∷ []) fs
        ≡ loader_set_next env has_dir arg s
  unfolding bootloader_command with_loader text_eq
  command_set_next arg fs s e = ap (with_loader env has_dir (codes "set-next" ∷ arg ∷ [])) e

  command_simulate :
      (fs : Files) (s : Session)
      → cli_loader env has_dir o fs ≡ (s, true)
      → bootloader_command env has_dir o (codes "simulate" ∷ []) fs ≡ loader_simulate env has_dir s
  unfolding bootloader_command with_loader text_eq
  command_simulate fs s e = ap (with_loader env has_dir (codes "simulate" ∷ [])) e

  set_next_lem :
      (arg : Text) (slot : SlotId) (s : Session)
      → target_slot arg ≡ some slot
      → loader_set_next env has_dir arg s
        ≡ loader_result env has_dir (LoaderOps.set_next_boot_slot env slot s)
  unfolding loader_set_next target_slot text_eq
  set_next_lem [] slot s e = absurd (cc)
  set_next_lem (c ∷ arg) slot s e = rw (e, loader_set_next) refl

  simulate_lem :
      (slot : SlotId) (s : Session)
      → s.bl.next_boot_slot_set ≡ true
      → s.bl.next_boot_slot ≡ slot
      → loader_simulate env has_dir s
        ≡ loader_result env has_dir (LoaderOps.mark_boot_started env slot s)
  unfolding loader_simulate
  simulate_lem slot s set e = rw (set, loader_simulate) (rw e refl)

  choose_lem :
      (arg : Text) (slot : SlotId) (fs : Files) (bl : SimulatedBootloader)
      → IsOnDisk o fs bl
      → target_slot arg ≡ some slot
      → (let (fs1, code) = bootloader_command env has_dir o (codes "set-next" ∷ arg ∷ []) fs in
          (code ≡ 0) × IsOnDisk o fs1 (chosen slot bl))
  choose_lem arg slot fs bl disk e =
      let s : Session = record { bl = restored bl (placed o); files = fs } in
      let (good, stored) = set_next_ok slot s in
      rw (command_set_next arg fs s (loader_lem fs bl disk) ∙ set_next_lem arg slot s e) (
        ap exit_of good,
        record { stored = stored; small_a = disk.small_a; small_b = disk.small_b },
      )

  boot_lem :
      (slot : SlotId) (fs : Files) (bl : SimulatedBootloader)
      → IsOnDisk o fs bl
      → bl.next_boot_slot_set ≡ true
      → bl.next_boot_slot ≡ slot
      → (let (fs1, code) = bootloader_command env has_dir o (codes "simulate" ∷ []) fs in
          (code ≡ 0) × (fs1 (loader_file o) ≡ some (state_to_json (cycled slot bl))))
  boot_lem slot fs bl disk set e =
      let s : Session = record { bl = restored bl (placed o); files = fs } in
      let (good, stored) = started_ok slot s e in
      rw (command_simulate fs s (loader_lem fs bl disk) ∙ simulate_lem slot s set e)
        (ap exit_of good, stored ∙ ap some (cycled_json slot bl o))

-- On a healthy system with a directory for the bootloader, and with a state of it on disk whose
-- counters are not negative: the call `bootloader set-next` with the name of a slot, and then the
-- call `bootloader simulate`, each in a process of its own, both end with 0, and the state on disk
-- is then the old one with that slot current, no pending boot and one more attempt of that slot,
-- an `int` that wraps.
pub bootloader_cycle :
    (env : Env) (has_dir : Text → Bool) (o : CliOptions) (arg : Text) (slot : SlotId) (fs : Files)
    (bl : SimulatedBootloader)
    → IsHealthy env
    → has_dir (loader_dir o) ≡ true
    → IsOnDisk o fs bl
    → target_slot arg ≡ some slot
    → (let (fs1, code1) = bootloader_command env has_dir o (codes "set-next" ∷ arg ∷ []) fs in
        let (fs2, code2) = bootloader_command env has_dir o (codes "simulate" ∷ []) fs1 in
        (code1 ≡ 0) × (code2 ≡ 0) × (fs2 (loader_file o) ≡ some (state_to_json (cycled slot bl))))
bootloader_cycle env has_dir o arg slot fs bl healthy dir disk e =
    let (code1, disk1) = choose_lem env has_dir healthy o dir arg slot fs bl disk e in
    let (code2, stored) =
      boot_lem env has_dir healthy o dir slot
        (bootloader_command env has_dir o (codes "set-next" ∷ arg ∷ []) fs).0 (chosen slot bl) disk1
        refl refl in
    (code1, code2, stored ∙ ap some (cycled-chosen slot bl))
