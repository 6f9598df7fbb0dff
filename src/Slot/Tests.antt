-- ===== src/Slot/Tests.antt =====
-- Slots on concrete values.
use embedded_linux_ota.Prelude.{true, false, none, ◌≡◌, refl}
use embedded_linux_ota.Text.{Text, codes, text_eq}
use embedded_linux_ota.Fs.Examples.{good_env, good_env-IsHealthy, closed_env}
use embedded_linux_ota.Slot.State.{slot_a, slot_b, active, inactive}
use embedded_linux_ota.Slot.Manager.{
  Session, new_manager, set_config, get_test_config, get_slot_info, persist_slot_state,
  load_slot_state,
}
use embedded_linux_ota.Slot.Manager.Operations.{
  fresh_slots, initialize_slots, prepare_inactive_slot, switch_active_slot, validate_slot,
}
use embedded_linux_ota.Slot.Switch.{
  IsConsistent, initialize_slots-IsConsistent, inactive_prepared, run_change,
  run_change-IsConsistent, switch_active_slot-prepare_inactive_slot, validate_slot-IsConsistent,
}
use embedded_linux_ota.Slot.Persist.{IsStorable, load_slot_state-persist, restart}
use embedded_linux_ota.Slot.Unwritten.{switch_active_slot-prepare_inactive_slot_closed}

abbrev start : Session
start = record { sm = set_config new_manager (get_test_config (codes "/t")); files = λ path. none }

abbrev running : Session
running = record start { sm = fresh_slots start.sm }

abbrev time : Text
time = codes "2025-01-02T03:04:05Z"

running-IsConsistent : IsConsistent running.sm
running-IsConsistent = record { about_a = refl; about_b = refl; runs = refl; rests = refl }

running_a-IsStorable : IsStorable running.sm.slot_a_info
unfolding text_eq
running_a-IsStorable = record {
  version = refl;
  hardware_version = refl;
  sha256 = refl;
  installed_at = refl;
}

running_b-IsStorable : IsStorable running.sm.slot_b_info
unfolding text_eq
running_b-IsStorable = record {
  version = refl;
  hardware_version = refl;
  sha256 = refl;
  installed_at = refl;
}

nothing_loaded : (load_slot_state start).1 ≡ false
unfolding load_slot_state
nothing_loaded = refl

initialize_slots-IsConsistent_instance :
    IsConsistent (initialize_slots good_env start).0.sm
    × ((initialize_slots good_env start).0.sm.active_slot
        ≡ (load_slot_state start).0.sm.config.default_active_slot)
initialize_slots-IsConsistent_instance = initialize_slots-IsConsistent good_env start nothing_loaded

run_change-IsConsistent_example :
    IsConsistent
      (run_change good_env
        (inactive_prepared time (codes "2.0.0") (codes "hw-v1") (codes "ab"))
        running).0.sm
run_change-IsConsistent_example =
    run_change-IsConsistent good_env
      (inactive_prepared time (codes "2.0.0") (codes "hw-v1") (codes "ab")) running
      running-IsConsistent

switch_active_slot-prepare_inactive_slot_example :
    let s1 =
      (prepare_inactive_slot good_env time
        (codes "2.0.0")
        (codes "hw-v1")
        (codes "ab")
        running).0 in
    let s2 = (switch_active_slot good_env s1).0 in
    ((prepare_inactive_slot good_env time (codes "2.0.0") (codes "hw-v1") (codes "ab") running).1
      ≡ true)
    × ((switch_active_slot good_env s1).1 ≡ true)
    × (s2.sm.active_slot ≡ slot_b)
    × (get_slot_info s2.sm slot_b ≡ record {
      slot_id = slot_b;
      version = codes "2.0.0";
      hardware_version = codes "hw-v1";
      state = active;
      sha256 = codes "ab";
      installed_at = time;
    })
    × (get_slot_info s2.sm slot_a ≡ record (get_slot_info running.sm slot_a) { state = inactive })
    × (switch_active_slot good_env s2 ≡ (s2, false))
switch_active_slot-prepare_inactive_slot_example =
    switch_active_slot-prepare_inactive_slot good_env time (codes "2.0.0") (codes "hw-v1")
      (codes "ab") running refl

validate_slot-IsConsistent_instance : validate_slot running.sm slot_a ≡ true
validate_slot-IsConsistent_instance =
    validate_slot-IsConsistent running.sm slot_a running-IsConsistent

load_slot_state-persist_example :
    load_slot_state (restart (persist_slot_state good_env running).0)
    ≡ ((persist_slot_state good_env running).0, true)
load_slot_state-persist_example =
    load_slot_state-persist good_env running good_env-IsHealthy refl refl refl running_a-IsStorable
      running_b-IsStorable

switch_active_slot-prepare_inactive_slot_closed_example :
    let (s1, ready) =
      prepare_inactive_slot closed_env time (codes "2.0.0") (codes "hw-v1") (codes "ab") running in
    let (s2, done) = switch_active_slot closed_env s1 in
    (ready ≡ true) × (done ≡ true) × (s2.sm.active_slot ≡ slot_b) × (s2.files ≡ running.files)
switch_active_slot-prepare_inactive_slot_closed_example =
    switch_active_slot-prepare_inactive_slot_closed closed_env (λ path. refl) time (codes "2.0.0")
      (codes "hw-v1") (codes "ab") running refl
