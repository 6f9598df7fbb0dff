-- ===== src/Device/State/Persist.antt =====
-- What is read back from `state.conf`.
use embedded_linux_ota.Prelude.{
  ℕ, ◌<◌, Bool, true, ◌||◌, [], ◌∷◌, some, ◌≡◌, refl, sym, ap, ◌∙◌, arith, all, get_or, ◌==◌,
  append-nil, List,
}
use embedded_linux_ota.Text.{Text, codes, text_eq, is_digit}
use embedded_linux_ota.Text.Search.{text_eq_refl, lacks}
use embedded_linux_ota.Text.Decimal.{
  int_modulus, int_to_string, stoi, stoi-int_to_string_all, int_to_string-chars,
}
use embedded_linux_ota.Text.Lines.{lines, trim, no_space, trim-no_space}
use embedded_linux_ota.Fs.{Files, Env, write_unflushed}
use embedded_linux_ota.Device.{read_lines}
use embedded_linux_ota.Device.Config.{are_settings, assign_all, read_lines-file_of}
use embedded_linux_ota.Device.State.{
  UpdateState, idle, checking, downloading, verifying, installing, pending_reboot, rebooting,
  health_check, success, confirmed, failure, rollback, recovery, PersistentState,
  update_state_to_string, string_to_update_state, new_state, assign_state, state_file, load_state,
  state_text, save_state,
}

chars_lem :
    (s : Text)
    → all (λ c. is_digit c || c == b'-') s ≡ true
    → (no_space s ≡ true) × (lacks b'\n' s ≡ true)
chars_lem [] h = (refl, refl)
chars_lem (c ∷ s) h = ground (arith, chars_lem s)

number_back : (n : ℕ) → n < int_modulus → get_or 0 (stoi (trim (int_to_string n))) ≡ n
number_back n h =
    ap (λ t. get_or 0 (stoi t))
      (trim-no_space (int_to_string n) (chars_lem (int_to_string n) (int_to_string-chars n)).0
        ∙ sym (append-nil (int_to_string n)))
    ∙ ap (get_or 0) (stoi-int_to_string_all n [] h tt)

name_lem :
    (s : UpdateState)
    → (lacks b'\n' (update_state_to_string s) ≡ true)
      × (string_to_update_state (trim (update_state_to_string s)) ≡ s)
unfolding update_state_to_string string_to_update_state trim
name_lem idle = (refl, refl)
name_lem checking = (refl, refl)
name_lem downloading = (refl, refl)
name_lem verifying = (refl, refl)
name_lem installing = (refl, refl)
name_lem pending_reboot = (refl, refl)
name_lem rebooting = (refl, refl)
name_lem health_check = (refl, refl)
name_lem success = (refl, refl)
name_lem confirmed = (refl, refl)
name_lem failure = (refl, refl)
name_lem rollback = (refl, refl)
name_lem recovery = (refl, refl)

-- No text holds a newline, and the number is an `int`.
pub record IsPlain (s : PersistentState) : Type 0 where
  pub current_version : lacks b'\n' s.current_version ≡ true
  pub active_slot : lacks b'\n' s.active_slot ≡ true
  pub pending_slot : lacks b'\n' s.pending_slot ≡ true
  pub pending_version : lacks b'\n' s.pending_version ≡ true
  pub boot_attempts : s.boot_attempts < int_modulus
  pub rollback_reason : lacks b'\n' s.rollback_reason ≡ true

-- The state with the blanks at both ends of its texts removed.
abbrev pub trimmed : PersistentState → PersistentState
trimmed s = record s {
  current_version = trim s.current_version;
  active_slot = trim s.active_slot;
  pending_slot = trim s.pending_slot;
  pending_version = trim s.pending_version;
  rollback_reason = trim s.rollback_reason;
}

-- The settings that the text consists of.
abbrev settings_of : PersistentState → List (Text × Text)
settings_of s =
    (codes "current_version", s.current_version)
    ∷ (codes "active_slot", s.active_slot)
    ∷ (codes "pending_slot", s.pending_slot)
    ∷ (codes "pending_version", s.pending_version)
    ∷ (codes "update_state", update_state_to_string s.update_state)
    ∷ (codes "boot_attempts", int_to_string s.boot_attempts)
    ∷ (codes "rollback_reason", s.rollback_reason)
    ∷ []

settings_of-are_settings : (s : PersistentState) → IsPlain s → are_settings (settings_of s) ≡ true
settings_of-are_settings s plain =
    let (named, back) = name_lem s.update_state in
    let numbered =
      chars_lem (int_to_string s.boot_attempts) (int_to_string-chars s.boot_attempts) in
    ground arith

read_back :
    (s : PersistentState)
    → IsPlain s
    → assign_all assign_state new_state (settings_of s) ≡ trimmed s
unfolding assign_state text_eq
read_back s plain = λ i. record (trimmed s) {
  update_state = (name_lem s.update_state).1 i;
  boot_attempts = number_back s.boot_attempts plain.boot_attempts i;
}

read_lines-state_text :
    (s : PersistentState)
    → IsPlain s
    → read_lines assign_state new_state (lines (state_text s)) ≡ trimmed s
read_lines-state_text s plain =
    read_lines-file_of assign_state new_state (settings_of s) (settings_of-are_settings s plain)
    ∙ read_back s plain

load_written :
    (can_read : Text → Bool) (fs : Files) (dir content : Text)
    → can_read (state_file dir) ≡ true
    → fs (state_file dir) ≡ some content
    → load_state can_read fs dir ≡ some (read_lines assign_state new_state (lines content))
unfolding load_state
load_written can_read fs dir content h e = rw (h, e) refl

saved :
    (env : Env) (s : PersistentState) (dir : Text) (fs : Files)
    → (save_state env s dir fs).1 ≡ true
    → (save_state env s dir fs).0 (state_file dir)
      ≡ some (env.stored (state_file dir) (state_text s))
unfolding save_state write_unflushed
saved env s dir fs h = ground (arith, text_eq_refl (state_file dir))

-- A state whose texts hold no newline, which is saved with success to a file that can be read and
-- that stores all that is written to it, is loaded as it was, the blanks at both ends of its texts
-- removed, its number of boot attempts any `int`.
pub load_state-save_state :
    (env : Env) (can_read : Text → Bool) (s : PersistentState) (dir : Text) (fs : Files)
    → env.stored (state_file dir) (state_text s) ≡ state_text s
    → IsPlain s
    → can_read (state_file dir) ≡ true
    → (save_state env s dir fs).1 ≡ true
    → load_state can_read (save_state env s dir fs).0 dir ≡ some (trimmed s)
load_state-save_state env can_read s dir fs whole plain readable good =
    load_written can_read (save_state env s dir fs).0 dir (state_text s) readable
      (saved env s dir fs good ∙ ap some whole)
    ∙ ap some (read_lines-state_text s plain)

-- Saving the state reports the same success whatever the system then stores of it, and the file
-- holds what it stores: with nothing stored, the next load finds no state in it but the default one.
pub save_state_unflushed :
    (env : Env) (can_read : Text → Bool) (s : PersistentState) (dir : Text) (fs : Files)
    → can_read (state_file dir) ≡ true
    → (save_state env s dir fs).1 ≡ true
    → (let lost = record env { stored = λ path content. [] } in
        ((save_state lost s dir fs).1 ≡ true)
        × (load_state can_read (save_state lost s dir fs).0 dir ≡ some new_state))
unfolding save_state write_unflushed lines read_lines
save_state_unflushed env can_read s dir fs readable good =
    let lost = record env { stored = λ path content. [] } in
    let same : (save_state lost s dir fs).1 ≡ true = ground arith in
    (
      same,
      load_written can_read (save_state lost s dir fs).0 dir [] readable (saved lost s dir fs same),
    )
