-- ===== src/Boot/Control/Agreement.antt =====
-- The boot control mirrors the state of the bootloader below it.
use embedded_linux_ota.Prelude.{
  ℕ, ◌+◌, ◌%◌, Bool, true, false, ◌||◌, none, some, Option-cases, inl, inr, ◌≡◌, refl, arith,
  if◌then◌else◌,
}
use embedded_linux_ota.Text.Decimal.{int_modulus}
use embedded_linux_ota.Fs.{Env}
use embedded_linux_ota.Slot.State.{SlotId, slot_a, slot_b, slot_eq, empty, invalid, slot_state_eq}
use embedded_linux_ota.Slot.Manager.{SlotManager, get_slot_info}
use embedded_linux_ota.Boot.Bootloader.{BootloaderState}
use embedded_linux_ota.Boot.Interface.{Bootloader, IsBootloader}
use embedded_linux_ota.Boot.Control.{
  SimulatedBootControl, Session, get_next_boot_slot, get_boot_attempt_count, set_attempt_count,
  persist_boot_state, reset_boot_attempt_count, validate_boot_target,
}
use embedded_linux_ota.Boot.Control.Operations.{
  set_next_boot_slot, clear_next_boot_slot, simulate_boot, prepare_next_boot,
}

-- The boot control's own copy of the bootloader's state.
abbrev pub mirror : {B : Type 0} → SimulatedBootControl B → BootloaderState
mirror bc = record {
  current_slot = bc.current_slot;
  next_boot_slot = get_next_boot_slot bc;
  next_boot_slot_set = bc.next_slot_set;
  boot_attempts_a = bc.boot_attempts_a;
  boot_attempts_b = bc.boot_attempts_b;
}

-- There is a bootloader, and its state is the copy.
abbrev pub IsAgreed : {B : Type 0} → Bootloader B → SimulatedBootControl B → Type 0
IsAgreed {B} ops bc = (b : B) × (bc.bootloader ≡ some b) × (ops.get_state b ≡ mirror bc)

-- The operations of the boot control that it passes on.
pub data ControlOp : Type 0 where
  next_set : SlotId → ControlOp
  next_cleared : ControlOp
  boot_simulated : ControlOp

module _ {B : Type 0} (env : Env) (ops : Bootloader B) where
  unfoldable pub run_control : ControlOp → Session B → Session B × Bool
  unfolding set_next_boot_slot clear_next_boot_slot simulate_boot
  run_control (next_set slot) s = set_next_boot_slot env ops slot s
  run_control next_cleared s = clear_next_boot_slot env ops s
  run_control boot_simulated s = simulate_boot env ops s

  module _ (laws : IsBootloader ops) (s : Session B) (b : B) (e : s.bc.bootloader ≡ some b)
      (m : ops.get_state b ≡ mirror s.bc) where
    next_set-IsAgreed :
        (slot : SlotId)
        → (set_next_boot_slot env ops slot s).1 ≡ true
        → ((set_next_boot_slot env ops slot s).0.bc.bootloader
            ≡ some (ops.set_next_boot_slot slot (b, s.files)).0.0)
          × (ops.get_state (ops.set_next_boot_slot slot (b, s.files)).0.0
              ≡ mirror (set_next_boot_slot env ops slot s).0.bc)
    unfolding set_next_boot_slot persist_boot_state
    next_set-IsAgreed slot h = ground (arith, laws.set_next slot (b, s.files))

    next_cleared-IsAgreed :
        (clear_next_boot_slot env ops s).1 ≡ true
        → ((clear_next_boot_slot env ops s).0.bc.bootloader
            ≡ some (ops.clear_next_boot_slot (b, s.files)).0.0)
          × (ops.get_state (ops.clear_next_boot_slot (b, s.files)).0.0
              ≡ mirror (clear_next_boot_slot env ops s).0.bc)
    unfolding clear_next_boot_slot persist_boot_state
    next_cleared-IsAgreed h = ground (arith, laws.cleared (b, s.files))

    boot_simulated-IsAgreed :
        (simulate_boot env ops s).1 ≡ true
        → ((simulate_boot env ops s).0.bc.bootloader
            ≡ some (ops.mark_boot_started s.bc.next_slot (b, s.files)).0.0)
          × (ops.get_state (ops.mark_boot_started s.bc.next_slot (b, s.files)).0.0
              ≡ mirror (simulate_boot env ops s).0.bc)
    unfolding simulate_boot persist_boot_state
    boot_simulated-IsAgreed h = ground (arith, laws.started s.bc.next_slot (b, s.files))

  -- With a bootloader that keeps its promises, every set, clear or boot that reports success
  -- leaves the boot control and the bootloader agreed on the current slot, the pending one and
  -- the counters.
  pub run_control-IsAgreed :
      (op : ControlOp) (s : Session B)
      → IsBootloader ops
      → IsAgreed ops s.bc
      → (run_control op s).1 ≡ true
      → IsAgreed ops (run_control op s).0.bc
  unfolding run_control
  run_control-IsAgreed (next_set slot) s laws (b, e, m) h = (
    (ops.set_next_boot_slot slot (b, s.files)).0.0,
    (next_set-IsAgreed laws s b e m slot h).0,
    (next_set-IsAgreed laws s b e m slot h).1,
  )
  run_control-IsAgreed next_cleared s laws (b, e, m) h = (
    (ops.clear_next_boot_slot (b, s.files)).0.0,
    (next_cleared-IsAgreed laws s b e m h).0,
    (next_cleared-IsAgreed laws s b e m h).1,
  )
  run_control-IsAgreed boot_simulated s laws (b, e, m) h = (
    (ops.mark_boot_started s.bc.next_slot (b, s.files)).0.0,
    (boot_simulated-IsAgreed laws s b e m h).0,
    (boot_simulated-IsAgreed laws s b e m h).1,
  )

  -- Preparing the next boot is refused without a change for the current slot and for a slot that
  -- is EMPTY or INVALID, and otherwise sets that slot as the next.
  pub prepare_next_boot_cases :
      (slot : SlotId) (sm : SlotManager) (s : Session B)
      → prepare_next_boot env ops slot sm s ≡ (
          if slot_eq slot s.bc.current_slot
            || slot_state_eq (get_slot_info sm slot).state empty
            || slot_state_eq (get_slot_info sm slot).state invalid
          then (s, false)
          else set_next_boot_slot env ops slot s)
  unfolding prepare_next_boot validate_boot_target
  prepare_next_boot_cases slot_a sm s = ground arith
  prepare_next_boot_cases slot_b sm s = ground arith

  simulate_refused :
      (s : Session B) → s.bc.next_slot_set ≡ false → simulate_boot env ops s ≡ (s, false)
  unfolding simulate_boot
  simulate_refused s h = rw h refl

  pending : (s : Session B) → (simulate_boot env ops s).1 ≡ true → s.bc.next_slot_set ≡ true
  unfolding simulate_boot
  pending s h = ground arith

  -- A boot that succeeds makes its slot current, and is no longer pending.
  boot_done :
      (s : Session B)
      → IsBootloader ops
      → (simulate_boot env ops s).1 ≡ true
      → ((simulate_boot env ops s).0.bc.current_slot ≡ s.bc.next_slot)
        × ((simulate_boot env ops s).0.bc.next_slot_set ≡ false)
  unfolding simulate_boot persist_boot_state
  boot_done s laws h = elim (Option-cases s.bc.bootloader) [
    | inl e ↦ ground arith
    | inr (b, e) ↦ ground (arith, laws.started s.bc.next_slot (b, s.files))
  ]

  -- Over a bootloader that keeps its promises, or none, a boot that succeeds was pending, makes
  -- its slot current and is no longer pending, and another boot is refused without a change.
  pub simulate_boot_lem :
      (s : Session B)
      → IsBootloader ops
      → (simulate_boot env ops s).1 ≡ true
      → (let s1 = (simulate_boot env ops s).0 in
          (s.bc.next_slot_set ≡ true)
          × (s1.bc.current_slot ≡ s.bc.next_slot)
          × (get_next_boot_slot s1.bc ≡ s.bc.next_slot)
          × (simulate_boot env ops s1 ≡ (s1, false)))
  simulate_boot_lem s laws h =
      let (now, idle) = boot_done s laws h in
      (pending s h, now, rw idle now, simulate_refused (simulate_boot env ops s).0 idle)

abbrev pub attempts_of : SlotId → BootloaderState → ℕ
attempts_of slot_a st = st.boot_attempts_a
attempts_of slot_b st = st.boot_attempts_b

module _ {B : Type 0} (env : Env) (ops : Bootloader B) where
  reset_kept :
      (slot : SlotId) (s : Session B)
      → (reset_boot_attempt_count env slot s).0.bc ≡ set_attempt_count slot 0 s.bc
  unfolding reset_boot_attempt_count persist_boot_state
  reset_kept slot_a s = ground arith
  reset_kept slot_b s = ground arith

  -- After a boot, the counter of the booted slot is one more than the bootloader's was, or than the
  -- boot control's own where there is no bootloader.
  boot_count :
      (s : Session B)
      → IsBootloader ops
      → (simulate_boot env ops s).1 ≡ true
      → get_boot_attempt_count s.bc.next_slot (simulate_boot env ops s).0.bc
        ≡ elim s.bc.bootloader [
          | none ↦ (get_boot_attempt_count s.bc.next_slot s.bc + 1) % int_modulus
          | some b ↦ (attempts_of s.bc.next_slot (ops.get_state b) + 1) % int_modulus
        ]
  unfolding simulate_boot persist_boot_state
  boot_count s laws h = elim (Option-cases s.bc.bootloader) [
    | inl e ↦ ground arith
    | inr (b, e) ↦ ground (arith, laws.started s.bc.next_slot (b, s.files))
  ]

  -- After a reset and a boot of the slot that succeeds, the counter of the slot is 1 where there is
  -- no bootloader; with one that keeps its promises it is one more than the bootloader's own
  -- counter, an `int` that wraps, which the reset does not reach.
  pub simulate_boot-reset_boot_attempt_count :
      (slot : SlotId) (s : Session B)
      → IsBootloader ops
      → s.bc.next_slot ≡ slot
      → (simulate_boot env ops (reset_boot_attempt_count env slot s).0).1 ≡ true
      → get_boot_attempt_count slot
          (simulate_boot env ops (reset_boot_attempt_count env slot s).0).0.bc
        ≡ elim s.bc.bootloader [
          | none ↦ 1
          | some b ↦ (attempts_of slot (ops.get_state b) + 1) % int_modulus
        ]
  simulate_boot-reset_boot_attempt_count slot_a s laws next h =
      ground
        (arith, boot_count (reset_boot_attempt_count env slot_a s).0 laws h, reset_kept slot_a s)
  simulate_boot-reset_boot_attempt_count slot_b s laws next h =
      ground
        (arith, boot_count (reset_boot_attempt_count env slot_b s).0 laws h, reset_kept slot_b s)
