-- ===== src/Slot/Unwritten.antt =====
-- What the slot manager reports where the disk cannot be written.
use embedded_linux_ota.Prelude.{true, false, ◌≡◌, refl, arith, ◌∙◌}
use embedded_linux_ota.Text.{Text}
use embedded_linux_ota.Json.Document.{document}
use embedded_linux_ota.Fs.{Files, Env, tmp_of, replace_file}
use embedded_linux_ota.Slot.State.{slot_a, slot_b, is_version_text}
use embedded_linux_ota.Slot.Manager.{
  Session, get_slot_metadata_file, metadata_fields, global_fields, persist_slot_state, set_info,
  get_inactive_slot,
}
use embedded_linux_ota.Slot.Manager.Operations.{
  prepared_info, prepare_inactive_slot, promote_inactive, switch_active_slot,
}
use embedded_linux_ota.Slot.Switch.{switch_active_slot-prepare_inactive_slot}

module _ (env : Env) (closed : (path : Text) → env.can_open path ≡ false) where
  replace_closed : (path content : Text) (fs : Files) → (replace_file env path content fs).0 ≡ fs
  unfolding replace_file
  replace_closed path content fs = rw (closed (tmp_of path)) refl

  persist_closed : (s : Session) → (persist_slot_state env s).0.files ≡ s.files
  unfolding persist_slot_state
  persist_closed s =
      replace_closed _ (document (global_fields s.sm.active_slot)) _
      ∙ replace_closed (get_slot_metadata_file s.sm slot_b)
          (document (metadata_fields s.sm.slot_b_info)) _
      ∙ replace_closed (get_slot_metadata_file s.sm slot_a)
          (document (metadata_fields s.sm.slot_a_info)) s.files

  switch_files : (s : Session) → (switch_active_slot env s).0.files ≡ s.files
  unfolding switch_active_slot
  switch_files s = ground (arith, persist_closed (record s { sm = promote_inactive s.sm }))

  prepare_files :
      (now v hw sha : Text) (s : Session)
      → (prepare_inactive_slot env now v hw sha s).0.files ≡ s.files
  unfolding prepare_inactive_slot
  prepare_files now v hw sha s = ground (
    arith,
    persist_closed (record s {
      sm = set_info (get_inactive_slot s.sm) (prepared_info now v hw sha s.sm) s.sm;
    }),
  )

  -- Where no file can be opened for writing, preparing a version of digits and dots and
  -- switching still report success and change the active slot in memory, and every file is what
  -- it was.
  pub switch_active_slot-prepare_inactive_slot_closed :
      (now v hw sha : Text) (s : Session)
      → is_version_text v ≡ true
      → (let (s1, ready) = prepare_inactive_slot env now v hw sha s in
          let (s2, done) = switch_active_slot env s1 in
          (ready ≡ true)
          × (done ≡ true)
          × (s2.sm.active_slot ≡ get_inactive_slot s.sm)
          × (s2.files ≡ s.files))
  switch_active_slot-prepare_inactive_slot_closed now v hw sha s h =
      let s1 = (prepare_inactive_slot env now v hw sha s).0 in
      let (ready, done, flipped, next, old, refused) =
        switch_active_slot-prepare_inactive_slot env now v hw sha s h in
      (ready, done, flipped, switch_files s1 ∙ prepare_files now v hw sha s)
