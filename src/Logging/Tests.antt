-- ===== src/Logging/Tests.antt =====
-- The logger at concrete calls.
use embedded_linux_ota.Prelude.{true, [], ◌∷◌, ◌++◌, some, ◌≡◌, refl, List}
use embedded_linux_ota.Text.{Text, codes}
use embedded_linux_ota.Fs.{Files, read_all}
use embedded_linux_ota.Fs.Examples.{good_env, good_env-IsHealthy, empty_disk}
use embedded_linux_ota.Logging
use embedded_linux_ota.Logging.{
  LogLevel, Logger, new_logger, initialize, info_level, debug_level, error_level,
}
use embedded_linux_ota.Logging.Calls.{
  Entry, log_all, printed, IsOpen, log_all-printed, initializes, here, next, Reach-initialize,
}

abbrev open_logger : Logger
open_logger = record {
  log_file = some (codes "/l/ota.log");
  good = true;
  min_level = info_level;
  initialized = true;
}

abbrev entry : LogLevel → Text → Entry
entry level message = record {
  timestamp = codes "t";
  level = level;
  component = codes "c";
  message = message;
}

abbrev entries : List Entry
entries =
    entry debug_level (codes "low")
    ∷ entry info_level (codes "one")
    ∷ entry error_level (codes "two")
    ∷ []

open_logger-IsOpen : IsOpen (codes "/l/ota.log") open_logger
open_logger-IsOpen = record { ready = refl; there = refl; good = refl }

log_all-printed_example :
    read_all (log_all good_env entries (open_logger, empty_disk)).1 (codes "/l/ota.log")
    ≡ read_all empty_disk (codes "/l/ota.log") ++ printed info_level entries
log_all-printed_example =
    log_all-printed good_env (codes "/l/ota.log") entries open_logger empty_disk good_env-IsHealthy
      open_logger-IsOpen

two_lines : printed info_level entries ≡ codes "t [INFO] c: one\nt [ERROR] c: two\n"
unfolding Logging.formatted
two_lines = refl

-- A logger that is open and is initialised again, with another directory and level.
abbrev started : Logger × Files
started =
    let (logger, fs, done) =
      initialize good_env true (codes "/l") info_level new_logger empty_disk in
    (logger, fs)

Reach-initialize_example :
    (started.0.initialized ≡ true)
    × (initialize good_env true (codes "/m") debug_level started.0 started.1
        ≡ (started.0, started.1, true))
unfolding initialize
Reach-initialize_example =
    Reach-initialize good_env empty_disk started (codes "/l/ota.log") true (codes "/m") debug_level
      (next here (initializes (new_logger, empty_disk) true (codes "/l") info_level)) refl
