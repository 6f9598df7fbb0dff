-- ===== src/Slot/Switch.antt =====
-- Which slot is active, and what preparing and switching do to it.
use embedded_linux_ota.Prelude.{
  Bool, true, false, not, ◌&&◌, ◌≡◌, refl, arith, if◌then◌else◌, ap, ◌∙◌,
}
use embedded_linux_ota.Text.{Text}
use embedded_linux_ota.Fs.{Env}
use embedded_linux_ota.Slot.State.{
  SlotId, slot_a, slot_b, active, inactive, invalid, slot_state_eq, SlotInfo, is_version_text,
}
use embedded_linux_ota.Slot.Manager.{
  SlotManager, Session, get_inactive_slot, info_of, get_slot_info, set_info, load_slot_state,
  persist_slot_state,
}
use embedded_linux_ota.Slot.Manager.Operations.{
  fresh_slots, initialize_slots, set_slot_version, set_slot_sha256, set_slot_hardware_version,
  validate_slot, prepared_info, prepare_inactive_slot, promote_inactive, can_switch,
  switch_active_slot,
}

-- Each slot's information is about that slot, the active slot is in the state ACTIVE, and the other
-- slot is not.
pub record IsConsistent (sm : SlotManager) : Type 0 where
  pub about_a : sm.slot_a_info.slot_id ≡ slot_a
  pub about_b : sm.slot_b_info.slot_id ≡ slot_b
  pub runs : slot_state_eq (get_slot_info sm sm.active_slot).state active ≡ true
  pub rests : slot_state_eq (get_slot_info sm (get_inactive_slot sm)).state active ≡ false

persist_sm : (env : Env) (s : Session) → (persist_slot_state env s).0.sm ≡ s.sm
unfolding persist_slot_state
persist_sm env s = refl

fresh_slots-IsConsistent : (sm : SlotManager) → IsConsistent (fresh_slots sm)
fresh_slots-IsConsistent sm = record {
  about_a = refl;
  about_b = refl;
  runs = ground arith;
  rests = ground arith;
}

fresh_start :
    (env : Env) (s : Session)
    → (load_slot_state s).1 ≡ false
    → (initialize_slots env s).0.sm ≡ fresh_slots (load_slot_state s).0.sm
unfolding initialize_slots
fresh_start env s h = rw h refl

-- Where nothing can be loaded, the slots start consistent, with the default slot active.
pub initialize_slots-IsConsistent :
    (env : Env) (s : Session)
    → (load_slot_state s).1 ≡ false
    → IsConsistent (initialize_slots env s).0.sm
      × ((initialize_slots env s).0.sm.active_slot
          ≡ (load_slot_state s).0.sm.config.default_active_slot)
initialize_slots-IsConsistent env s h = (
  rw (fresh_start env s h) (fresh_slots-IsConsistent (load_slot_state s).0.sm),
  ap (λ sm. sm.active_slot) (fresh_start env s h),
)

-- The operations that a client calls between two switches.
pub data Change : Type 0 where
  version_set : SlotId → Text → Change
  sha256_set : SlotId → Text → Change
  hardware_version_set : SlotId → Text → Change
  inactive_prepared : (now version hardware_version sha256 : Text) → Change
  switched : Change

unfoldable pub run_change : Env → Change → Session → Session × Bool
unfolding set_slot_version set_slot_sha256 set_slot_hardware_version prepare_inactive_slot
    switch_active_slot
run_change env (version_set slot v) s = set_slot_version env slot v s
run_change env (sha256_set slot v) s = set_slot_sha256 env slot v s
run_change env (hardware_version_set slot v) s = set_slot_hardware_version env slot v s
run_change env (inactive_prepared now v hw sha) s = prepare_inactive_slot env now v hw sha s
run_change env switched s = switch_active_slot env s

module _ (env : Env) where
  info_change :
      (slot : SlotId) (sm : SlotManager) (info : SlotInfo)
      → IsConsistent sm
      → info.slot_id ≡ (info_of slot sm).slot_id
      → info.state ≡ (info_of slot sm).state
      → IsConsistent (set_info slot info sm)
  info_change slot_a sm info ok e f = record {
    about_a = ground (arith, ok.about_a);
    about_b = ok.about_b;
    runs = ground (arith, ok.runs);
    rests = ground (arith, ok.rests);
  }
  info_change slot_b sm info ok e f = record {
    about_a = ok.about_a;
    about_b = ground (arith, ok.about_b);
    runs = ground (arith, ok.runs);
    rests = ground (arith, ok.rests);
  }

  prepared_change :
      (sm : SlotManager) (info : SlotInfo)
      → IsConsistent sm
      → info.slot_id ≡ (get_slot_info sm (get_inactive_slot sm)).slot_id
      → slot_state_eq info.state active ≡ false
      → IsConsistent (set_info (get_inactive_slot sm) info sm)
  prepared_change sm info ok e f = record {
    about_a = ground (arith, ok.about_a);
    about_b = ground (arith, ok.about_b);
    runs = ground (arith, ok.runs);
    rests = ground (arith, ok.rests);
  }

  -- The assignments of `switch_active_slot`.
  switched_change : (sm : SlotManager) → IsConsistent sm → IsConsistent (promote_inactive sm)
  switched_change sm ok = record {
    about_a = ground (arith, ok.about_a);
    about_b = ground (arith, ok.about_b);
    runs = ground (arith, ok.runs);
    rests = ground (arith, ok.rests);
  }

  -- Preparing succeeds exactly for a version of digits and dots. Then the inactive slot holds what
  -- was given, in the state PREPARED; a refusal changes nothing.
  pub prepare_inactive_slot_cases :
      (now v hw sha : Text) (s : Session)
      → ((prepare_inactive_slot env now v hw sha s).1 ≡ is_version_text v)
        × ((prepare_inactive_slot env now v hw sha s).0.sm ≡ (
            if is_version_text v
            then set_info (get_inactive_slot s.sm) (prepared_info now v hw sha s.sm) s.sm
            else s.sm))
  unfolding prepare_inactive_slot persist_slot_state
  prepare_inactive_slot_cases now v hw sha s = ground arith

  -- Switching succeeds exactly where the inactive slot is PREPARED or BOOTABLE; a refusal changes
  -- nothing.
  pub switch_active_slot_cases :
      (s : Session)
      → ((switch_active_slot env s).1 ≡ can_switch s.sm)
        × ((switch_active_slot env s).0.sm
            ≡ (if can_switch s.sm then promote_inactive s.sm else s.sm))
  unfolding switch_active_slot persist_slot_state
  switch_active_slot_cases s = ground arith

  if_IsConsistent :
      (b : Bool) (sm sm' : SlotManager)
      → IsConsistent sm
      → IsConsistent sm'
      → IsConsistent (if b then sm' else sm)
  if_IsConsistent true sm sm' ok ok' = ok'
  if_IsConsistent false sm sm' ok ok' = ok

  -- Setting a version, hash or hardware version, preparing the inactive slot and switching keep
  -- the slots consistent, whatever the disk does: each slot has its own information, the active
  -- slot is in the state ACTIVE, and the other is not.
  pub run_change-IsConsistent :
      (c : Change) (s : Session) → IsConsistent s.sm → IsConsistent (run_change env c s).0.sm
  unfolding run_change set_slot_version set_slot_sha256 set_slot_hardware_version persist_slot_state
  run_change-IsConsistent (version_set slot v) s ok = info_change slot s.sm _ ok refl refl
  run_change-IsConsistent (sha256_set slot v) s ok = info_change slot s.sm _ ok refl refl
  run_change-IsConsistent (hardware_version_set slot v) s ok = info_change slot s.sm _ ok refl refl
  run_change-IsConsistent (inactive_prepared now v hw sha) s ok =
      rw (prepare_inactive_slot_cases now v hw sha s).1
        (if_IsConsistent (is_version_text v) s.sm _ ok (prepared_change s.sm _ ok refl refl))
  run_change-IsConsistent switched s ok =
      rw (switch_active_slot_cases s).1
        (if_IsConsistent (can_switch s.sm) s.sm _ ok (switched_change s.sm ok))

  switch_refused : (s : Session) → can_switch s.sm ≡ false → switch_active_slot env s ≡ (s, false)
  unfolding switch_active_slot persist_slot_state
  switch_refused s h = ground arith

  -- What preparing and switching make of the slots.
  updated :
      (now v hw sha : Text) (sm : SlotManager)
      → (let sm1 = set_info (get_inactive_slot sm) (prepared_info now v hw sha sm) sm in
          let sm2 = promote_inactive sm1 in
          (can_switch sm1 ≡ true)
          × (sm2.active_slot ≡ get_inactive_slot sm)
          × (get_slot_info sm2 (get_inactive_slot sm) ≡ record {
            slot_id = (get_slot_info sm (get_inactive_slot sm)).slot_id;
            version = v;
            hardware_version = hw;
            state = active;
            sha256 = sha;
            installed_at = now;
          })
          × (get_slot_info sm2 sm.active_slot
              ≡ record (get_slot_info sm sm.active_slot) { state = inactive })
          × (can_switch sm2 ≡ false))
  updated now v hw sha sm = ground arith

  switch_done :
      (s : Session)
      → can_switch s.sm ≡ true
      → ((switch_active_slot env s).1 ≡ true)
        × ((switch_active_slot env s).0.sm ≡ promote_inactive s.sm)
  unfolding switch_active_slot persist_slot_state
  switch_done s h = ground arith

  prepare_done :
      (now v hw sha : Text) (s : Session)
      → is_version_text v ≡ true
      → (prepare_inactive_slot env now v hw sha s).0.sm
        ≡ set_info (get_inactive_slot s.sm) (prepared_info now v hw sha s.sm) s.sm
  unfolding prepare_inactive_slot persist_slot_state
  prepare_done now v hw sha s h = ground arith

  -- Preparing the inactive slot with a version of digits and dots and then switching succeed: that
  -- slot is then the active one, in the state ACTIVE, with the version, hardware version, hash and
  -- time that were given, the old one is kept but for its state, INACTIVE, and a second switch is
  -- refused without a change.
  pub switch_active_slot-prepare_inactive_slot :
      (now v hw sha : Text) (s : Session)
      → is_version_text v ≡ true
      → (let s1 = (prepare_inactive_slot env now v hw sha s).0 in
          let s2 = (switch_active_slot env s1).0 in
          ((prepare_inactive_slot env now v hw sha s).1 ≡ true)
          × ((switch_active_slot env s1).1 ≡ true)
          × (s2.sm.active_slot ≡ get_inactive_slot s.sm)
          × (get_slot_info s2.sm (get_inactive_slot s.sm) ≡ record {
            slot_id = (get_slot_info s.sm (get_inactive_slot s.sm)).slot_id;
            version = v;
            hardware_version = hw;
            state = active;
            sha256 = sha;
            installed_at = now;
          })
          × (get_slot_info s2.sm s.sm.active_slot
              ≡ record (get_slot_info s.sm s.sm.active_slot) { state = inactive })
          × (switch_active_slot env s2 ≡ (s2, false)))
  switch_active_slot-prepare_inactive_slot now v hw sha s h =
      let s1 = (prepare_inactive_slot env now v hw sha s).0 in
      let e1 = prepare_done now v hw sha s h in
      let (can, flipped, next, old, cannot) = updated now v hw sha s.sm in
      let (done, e) = switch_done s1 (ap can_switch e1 ∙ can) in
      let e2 = e ∙ ap promote_inactive e1 in
      (
        (prepare_inactive_slot_cases now v hw sha s).0 ∙ h,
        done,
        ap (λ sm. sm.active_slot) e2 ∙ flipped,
        ap (λ sm. get_slot_info sm (get_inactive_slot s.sm)) e2 ∙ next,
        ap (λ sm. get_slot_info sm s.sm.active_slot) e2 ∙ old,
        switch_refused (switch_active_slot env s1).0 (ap can_switch e2 ∙ cannot),
      )

-- For consistent slots, validation finds no fault but an INVALID slot and a version that is not
-- of digits and dots.
pub validate_slot-IsConsistent :
    (sm : SlotManager) (slot : SlotId)
    → IsConsistent sm
    → validate_slot sm slot ≡ (
        not (slot_state_eq (get_slot_info sm slot).state invalid)
        && is_version_text (get_slot_info sm slot).version)
unfolding validate_slot
validate_slot-IsConsistent sm slot_a ok = ground (arith, ok.about_a, ok.runs, ok.rests)
validate_slot-IsConsistent sm slot_b ok = ground (arith, ok.about_b, ok.runs, ok.rests)
