-- ===== src/Boot/Control/Operations.antt =====
-- The operations of `SimulatedBootControl` that call the bootloader, if there is one.
use embedded_linux_ota.Prelude.{
  ◌+◌, ◌%◌, Bool, true, false, not, ◌&&◌, none, some, ◌++◌, if◌then◌else◌,
}
use embedded_linux_ota.Text.{Text, codes, is_empty}
use embedded_linux_ota.Text.Decimal.{int_modulus}
use embedded_linux_ota.Fs.{Files, Env}
use embedded_linux_ota.Slot.State.{SlotId, slot_a, slot_b, slot_eq}
use embedded_linux_ota.Slot.Manager.{SlotManager}
use embedded_linux_ota.Boot.Bootloader.{BootloaderState}
use embedded_linux_ota.Boot.Interface.{Bootloader}
use embedded_linux_ota.Boot.Control.{
  SimulatedBootControl, Session, set_default_config, get_boot_attempt_count, set_attempt_count,
  persist_boot_state, load_boot_state, validate_boot_target,
}

module _ {B : Type 0} where
  -- A call of the bootloader, left out where there is none.
  abbrev pub forward : (B × Files → (B × Files) × Bool) → Session B → Session B × Bool
  forward call s = elim s.bc.bootloader [
    | none ↦ (s, true)
    | some b ↦
        let ((b1, files), done) = call (b, s.files) in
        (record s { bc = record s.bc { bootloader = some b1 }; files = files }, done)
  ]

  -- The bootloader's state that `simulate_boot` takes over.
  abbrev pub take_boot : BootloaderState → SimulatedBootControl B → SimulatedBootControl B
  take_boot st bc = record bc {
    current_slot = st.current_slot;
    next_slot_set = st.next_boot_slot_set;
    boot_attempts_a = st.boot_attempts_a;
    boot_attempts_b = st.boot_attempts_b;
  }

  -- The bootloader's state that `initialize` takes over.
  abbrev pub take_state : BootloaderState → SimulatedBootControl B → SimulatedBootControl B
  take_state st bc = record (take_boot st bc) { next_slot = st.next_boot_slot }

module _ {B : Type 0} (env : Env) (ops : Bootloader B) where
  -- `initialize`; `has_dir` is what `ensure_directory_exists` returns.
  unfoldable pub initialize : (Text → Bool) → Session B → Session B × Bool
  unfolding load_boot_state
  initialize has_dir s =
      let s1 =
        if is_empty s.bc.boot_state_dir then record s { bc = set_default_config s.bc } else s in
      let dir = s1.bc.boot_state_dir in
      if not (has_dir dir) then (s1, false) else elim s1.bc.bootloader [
        | none ↦ load_boot_state env s1
        | some b ↦
            let placed =
              ops.set_state_dir (dir ++ codes "/bootloader")
                (dir ++ codes "/bootloader/bootloader_state.json") b in
            let ((b1, files), done) = ops.initialize (placed, s1.files) in
            let s2 = record s1 { bc = record s1.bc { bootloader = some b1 }; files = files } in
            if done
            then (record s2 { bc = take_state (ops.get_state b1) s2.bc }, true)
            else (s2, false)
      ]

  unfoldable pub set_next_boot_slot : SlotId → Session B → Session B × Bool
  unfolding persist_boot_state
  set_next_boot_slot slot s =
      let chosen = record s { bc = record s.bc { next_slot = slot; next_slot_set = true } } in
      let (s1, done) = forward (ops.set_next_boot_slot slot) chosen in
      if not (slot_eq slot slot_a) && not (slot_eq slot slot_b)
      then (s, false)
      else if slot_eq slot s.bc.current_slot
      then (s, false)
      else if done
      then persist_boot_state env s1
      else (s1, false)

  unfoldable pub clear_next_boot_slot : Session B → Session B × Bool
  unfolding persist_boot_state
  clear_next_boot_slot s =
      let (s1, done) =
        forward ops.clear_next_boot_slot
          (record s { bc = record s.bc { next_slot_set = false } }) in
      if done then persist_boot_state env s1 else (s1, false)

  unfoldable pub simulate_boot : Session B → Session B × Bool
  unfolding persist_boot_state
  simulate_boot s =
      let target = s.bc.next_slot in
      if not s.bc.next_slot_set then (s, false) else elim s.bc.bootloader [
        | none ↦ persist_boot_state env (record s {
          bc =
              set_attempt_count target ((get_boot_attempt_count target s.bc + 1) % int_modulus)
                (record s.bc { current_slot = target; next_slot_set = false });
        })
        | some b ↦
            let ((b1, files), done) = ops.mark_boot_started target (b, s.files) in
            let s1 = record s { bc = record s.bc { bootloader = some b1 }; files = files } in
            if done
            then persist_boot_state env (record s1 { bc = take_boot (ops.get_state b1) s1.bc })
            else (s1, false)
      ]

  unfoldable pub prepare_next_boot : SlotId → SlotManager → Session B → Session B × Bool
  unfolding validate_boot_target set_next_boot_slot
  prepare_next_boot slot sm s =
      if not (validate_boot_target slot sm s.bc) then (s, false) else set_next_boot_slot slot s
