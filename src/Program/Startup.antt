-- ===== src/Program/Startup.antt =====
-- What the client has when it enters its loop (src/main.cpp).
use embedded_linux_ota.Prelude.{
  ℕ, Bool, true, false, [], ◌∷◌, ◌++◌, none, some, ◌≡◌, refl, sym, ap, ◌∙◌, inl, inr, arith,
  Bool-cases,
}
use embedded_linux_ota.Text.{Text, codes, text_eq, text_eq_iff}
use embedded_linux_ota.Text.Lines.{trim}
use embedded_linux_ota.Fs.{Files, Env, IsHealthy, write_unflushed}
use embedded_linux_ota.Client.Updates.{DeviceConfig}
use embedded_linux_ota.Device.{load_config, validate_config}
use embedded_linux_ota.Device.Config.{
  IsValidConfig, validate_config-IsValidConfig, semver_clean, slot_clean,
}
use embedded_linux_ota.Device.State.{
  PersistentState, new_state, state_file, load_state, save_state, initialize_state,
}
use embedded_linux_ota.Device.State.Persist.{IsPlain, trimmed, load_state-save_state}
use embedded_linux_ota.Logging.{
  Logger, LogLevel, info_level, log, append, log_path, initialize, new_logger,
}
use embedded_linux_ota.Program.{
  Options, System, running, configure, first_state, obtain_state, start, info, config_message,
}

last_of : ℕ → Text → ℕ
last_of d [] = d
last_of d (c ∷ s) = last_of c s

last_of-append : (d : ℕ) (p : Text) (c : ℕ) (s : Text) → last_of d (p ++ (c ∷ s)) ≡ last_of c s
unfolding last_of
last_of-append d [] c s = refl
last_of-append d (x ∷ p) c s = last_of-append x p c s

-- The log is another file than the state, whatever the directories.
log_path-state_file : (a b : Text) → text_eq (log_path a) (state_file b) ≡ false
unfolding last_of
log_path-state_file a b = elim (Bool-cases (text_eq (log_path a) (state_file b))) [
  | inl e ↦
      let same = ap (last_of 0) ((text_eq_iff (log_path a) (state_file b)).0 e) in
      let letters : ◌≡◌ {A = ℕ} b'g' b'f' =
        sym (last_of-append 0 a b'/' (codes "ota.log"))
        ∙ same
        ∙ last_of-append 0 b b'/' (codes "state.conf") in
      absurd (omega arith)
  | inr e ↦ e
]

-- The log is open on the path, and no other file was touched.
record IsQuiet (path : Text) (fs : Files) (s : Logger × Files) : Type 0 where
  there : s.0.log_file ≡ some path
  others : (q : Text) → text_eq path q ≡ false → s.1 q ≡ fs q

log-IsQuiet :
    (env : Env) (t : Text) (l : LogLevel) (c m : Text) {path : Text} {fs : Files}
    (s : Logger × Files)
    → IsQuiet path fs s
    → IsQuiet path fs (log env t l c m s.0 s.1)
unfolding log append
log-IsQuiet env t l c m {path} {fs} s quiet =
    let e = quiet.there in
    record { there = ground arith; others = λ q h. ground (arith, quiet.others q h) }

info-IsQuiet :
    (env : Env) (system : System) (n : ℕ) (message : Text) {path : Text} {fs : Files}
    (s : Logger × Files)
    → IsQuiet path fs s
    → IsQuiet path fs (info env system n message s)
info-IsQuiet env system n message s quiet =
    log-IsQuiet env (system.now n) info_level (codes "main") message s quiet

load_config_at :
    (can_read : Text → Bool) (f g : Files) (path : Text)
    → f path ≡ g path
    → load_config can_read f path ≡ load_config can_read g path
unfolding load_config
load_config_at can_read f g path e = rw e refl

load_state-none :
    (can_read : Text → Bool) (fs : Files) (dir : Text)
    → fs (state_file dir) ≡ none
    → load_state can_read fs dir ≡ none
unfolding load_state
load_state-none can_read fs dir e = ground arith

-- The state that a device starts with.
abbrev pub first_state_of : DeviceConfig → PersistentState
first_state_of config = record new_state {
  current_version = config.software_version;
  active_slot = config.active_slot;
}

first-IsPlain : (config : DeviceConfig) → IsValidConfig config → IsPlain (first_state_of config)
first-IsPlain config valid = record {
  current_version = (semver_clean config.software_version valid.version).1;
  active_slot = (slot_clean config.active_slot valid.slot).1;
  pending_slot = refl;
  pending_version = refl;
  boot_attempts = omega arith;
  rollback_reason = refl;
}

first_trimmed :
    (config : DeviceConfig)
    → IsValidConfig config
    → trimmed (first_state_of config) ≡ first_state_of config
unfolding trim
first_trimmed config valid = λ i. record (first_state_of config) {
  current_version = (semver_clean config.software_version valid.version).0 i;
  active_slot = (slot_clean config.active_slot valid.slot).0 i;
}

module _ (env : Env) (system : System) (healthy : IsHealthy env) (o : Options) where
  save_good : (s : PersistentState) (dir : Text) (fs : Files) → (save_state env s dir fs).1 ≡ true
  unfolding save_state write_unflushed
  save_good s dir fs = rw (healthy.opens (state_file dir)) (healthy.buffers _ _)

  first_state_ok :
      (config : DeviceConfig) (s : Logger × Files)
      → IsValidConfig config
      → system.has_dir o.state_dir ≡ true
      → system.can_read (state_file o.state_dir) ≡ true
      → (first_state env system o config s).1 ≡ some (first_state_of config)
  unfolding first_state initialize_state
  first_state_ok config s valid dir readable =
      let good = save_good (first_state_of config) o.state_dir s.1 in
      let back =
        load_state-save_state env system.can_read (first_state_of config) o.state_dir s.1
          (healthy.honest _ _ (healthy.writes _ _)) (first-IsPlain config valid) readable good
        ∙ ap some (first_trimmed config valid) in
      ground arith

  obtain_first :
      (config : DeviceConfig) (s : Logger × Files)
      → IsValidConfig config
      → system.has_dir o.state_dir ≡ true
      → system.can_read (state_file o.state_dir) ≡ true
      → s.1 (state_file o.state_dir) ≡ none
      → (obtain_state env system o config s).1 ≡ some (first_state_of config)
  unfolding obtain_state
  obtain_first config s valid dir readable fresh =
      rw (load_state-none system.can_read s.1 o.state_dir fresh, obtain_state)
        (first_state_ok config
          (info env system 2 (codes "No persistent state found, initializing") s) valid dir
          readable)

  configure_ok :
      (config : DeviceConfig) {fs : Files} {path : Text} (s : Logger × Files)
      → IsQuiet path fs s
      → load_config system.can_read s.1 o.config_path ≡ some config
      → validate_config config ≡ true
      → ((configure env system o s).1 ≡ some config) × IsQuiet path fs (configure env system o s).0
  unfolding configure
  configure_ok config {fs} {path} s quiet loaded valid =
      rw (loaded, configure)
        (rw (valid, configure) (refl, info-IsQuiet env system 1 (config_message config) s quiet))

  opened :
      (fs : Files)
      → system.has_dir o.log_dir ≡ true
      → (let (logger, fs1, ok) =
            initialize env (system.has_dir o.log_dir) o.log_dir info_level new_logger fs in
          (ok ≡ true) × IsQuiet (log_path o.log_dir) fs (logger, fs1))
  unfolding initialize
  opened fs dir =
      rw (dir, healthy.opens (log_path o.log_dir))
        (refl, record { there = refl; others = λ q h. rw h refl })

  entered :
      (fs : Files) (config : DeviceConfig) (state : PersistentState)
      → (let (logger, fs1, ok) =
            initialize env (system.has_dir o.log_dir) o.log_dir info_level new_logger fs in
          let (s2, loaded) =
            configure env system o
              (info env system 0 (codes "OTA client starting") (logger, fs1)) in
          (ok ≡ true)
          × (loaded ≡ some config)
          × ((obtain_state env system o config s2).1 ≡ some state))
      → (start env system o fs).1 ≡ running config state
  unfolding start
  entered fs config state (ok, loaded, obtained) = rw (ok, loaded, obtained) refl

  -- On a healthy system, with directories for the log and the state that can be made, a readable
  -- configuration file that is not the log file and that loads as a valid configuration, and no
  -- state file yet, in a place that can be read, the client enters its loop with that
  -- configuration and with an idle state of the version and the slot of the configuration.
  pub start_first :
      (fs : Files) (config : DeviceConfig)
      → system.has_dir o.log_dir ≡ true
      → system.has_dir o.state_dir ≡ true
      → system.can_read (state_file o.state_dir) ≡ true
      → text_eq (log_path o.log_dir) o.config_path ≡ false
      → load_config system.can_read fs o.config_path ≡ some config
      → validate_config config ≡ true
      → fs (state_file o.state_dir) ≡ none
      → (start env system o fs).1 ≡ running config (first_state_of config)
  start_first fs config log_dir state_dir readable apart loaded valid fresh =
      let (ok, quiet0) = opened fs log_dir in
      let (logger, fs1, made) =
        initialize env (system.has_dir o.log_dir) o.log_dir info_level new_logger fs in
      let s1 : Logger × Files = info env system 0 (codes "OTA client starting") (logger, fs1) in
      let quiet1 : IsQuiet (log_path o.log_dir) fs s1 =
        info-IsQuiet env system 0 (codes "OTA client starting") (logger, fs1) quiet0 in
      let (configured, quiet2) =
        configure_ok config s1 quiet1
          (load_config_at system.can_read s1.1 fs o.config_path (quiet1.others o.config_path apart)
            ∙ loaded)
          valid in
      entered fs config (first_state_of config) (
        ok,
        configured,
        obtain_first config (configure env system o s1).0
            (validate_config-IsValidConfig config valid) state_dir readable
            (quiet2.others (state_file o.state_dir) (log_path-state_file o.log_dir o.state_dir)
              ∙ fresh),
      )
