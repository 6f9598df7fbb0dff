-- ===== src/Boot/Interface.antt =====
-- The abstract class `Bootloader` (include/boot/bootloader/bootloader.hpp): the operations that the
-- boot control calls, what it relies on, and `SimulatedBootloader` as an implementation.
use embedded_linux_ota.Prelude.{Bool, true, false, ◌≡◌}
use embedded_linux_ota.Text.{Text}
use embedded_linux_ota.Fs.{Files, Env}
use embedded_linux_ota.Slot.State.{SlotId}
use embedded_linux_ota.Boot.Bootloader.{BootloaderState, SimulatedBootloader, Session, get_state}
use embedded_linux_ota.Boot.Bootloader as Simulated
use embedded_linux_ota.Boot.Bootloader.Operations as SimulatedOps
use embedded_linux_ota.Boot.Bootloader.Laws.{
  booted, set_next_boot_slot_lem, clear_next_boot_slot_lem, mark_boot_started_lem,
}

-- A bootloader works on its own state, of type `B`, and on the disk.
pub record Bootloader (B : Type 0) : Type 0 where
  pub set_state_dir : Text → Text → B → B
  pub initialize : B × Files → (B × Files) × Bool
  pub set_next_boot_slot : SlotId → B × Files → (B × Files) × Bool
  pub clear_next_boot_slot : B × Files → (B × Files) × Bool
  pub mark_boot_started : SlotId → B × Files → (B × Files) × Bool
  pub get_state : B → BootloaderState

-- What each operation promises of the state when it reports success.
pub record IsBootloader {B : Type 0} (ops : Bootloader B) : Type 0 where
  pub set_next :
      (slot : SlotId) (d : B × Files)
      → (ops.set_next_boot_slot slot d).1 ≡ true
      → ops.get_state (ops.set_next_boot_slot slot d).0.0
        ≡ record (ops.get_state d.0) { next_boot_slot = slot; next_boot_slot_set = true }
  pub cleared :
      (d : B × Files)
      → (ops.clear_next_boot_slot d).1 ≡ true
      → ops.get_state (ops.clear_next_boot_slot d).0.0 ≡ record (ops.get_state d.0) {
        next_boot_slot = (ops.get_state d.0).current_slot;
        next_boot_slot_set = false;
      }
  pub started :
      (slot : SlotId) (d : B × Files)
      → (ops.mark_boot_started slot d).1 ≡ true
      → ops.get_state (ops.mark_boot_started slot d).0.0 ≡ booted slot (ops.get_state d.0)

-- An operation of `SimulatedBootloader` on the pair of a bootloader and the disk.
abbrev on_pair :
    (Session → Session × Bool) → SimulatedBootloader × Files → (SimulatedBootloader × Files) × Bool
on_pair op d = let (s, done) = op (record { bl = d.0; files = d.1 }) in ((s.bl, s.files), done)

abbrev pub simulated : Env → (Text → Bool) → Bootloader SimulatedBootloader
simulated env has_dir = record {
  set_state_dir = λ dir file bl. record bl { state_dir = dir; state_file = file };
  initialize = on_pair (Simulated.initialize env has_dir);
  set_next_boot_slot = λ slot. on_pair (SimulatedOps.set_next_boot_slot env slot);
  clear_next_boot_slot = on_pair (SimulatedOps.clear_next_boot_slot env);
  mark_boot_started = λ slot. on_pair (SimulatedOps.mark_boot_started env slot);
  get_state = get_state;
}

-- SimulatedBootloader keeps what the boot control relies on when setting, clearing and starting
-- a boot succeed, whatever the disk does.
pub simulated-IsBootloader :
    (env : Env) (has_dir : Text → Bool) → IsBootloader (simulated env has_dir)
simulated-IsBootloader env has_dir = record {
  set_next = λ slot d h. set_next_boot_slot_lem env slot (record { bl = d.0; files = d.1 });
  cleared = λ d h. clear_next_boot_slot_lem env (record { bl = d.0; files = d.1 });
  started = λ slot d h. (mark_boot_started_lem env slot (record { bl = d.0; files = d.1 })).0;
}
