-- ===== src/Logging.antt =====
-- The log file (include/logging/logger.h, src/logging/logger.cpp). The mutex makes each call one
-- step; the time stamp of a call is a parameter of it.
pub mod Calls
pub mod Tests
use embedded_linux_ota.Prelude.{
  ℕ, Bool, true, false, not, ◌||◌, [], ◌∷◌, ◌++◌, Option, none, some, ltb, if◌then◌else◌, List,
}
use embedded_linux_ota.Text.{Text, codes, text_eq}
use embedded_linux_ota.Fs.{Files, Env, put, read_all}

pub data LogLevel : Type 0 where
  debug_level info_level warn_level error_level : LogLevel

unfoldable pub log_level_to_string : LogLevel → Text
log_level_to_string debug_level = codes "DEBUG"
log_level_to_string info_level = codes "INFO"
log_level_to_string warn_level = codes "WARN"
log_level_to_string error_level = codes "ERROR"

unfoldable pub string_to_log_level : Text → LogLevel
unfolding text_eq
string_to_log_level str =
    if text_eq str (codes "DEBUG")
    then debug_level
    else if text_eq str (codes "INFO")
    then info_level
    else if text_eq str (codes "WARN")
    then warn_level
    else if text_eq str (codes "ERROR")
    then error_level
    else info_level

-- The value of the enumerator.
abbrev pub rank : LogLevel → ℕ
rank debug_level = 0
rank info_level = 1
rank warn_level = 2
rank error_level = 3

-- `log_file` is the path of the stream where it is open, `good` whether the stream takes writes.
pub record Logger : Type 0 where
  pub log_file : Option Text
  pub good : Bool
  pub min_level : LogLevel
  pub initialized : Bool

abbrev pub new_logger : Logger
new_logger = record { log_file = none; good = true; min_level = info_level; initialized = false }

abbrev pub log_path : Text → Text
log_path log_dir = log_dir ++ codes "/ota.log"

-- What one call writes.
unfoldable pub formatted : Text → LogLevel → Text → Text → Text
unfolding log_level_to_string
formatted timestamp level component message =
    timestamp
    ++ (codes " ["
        ++ (log_level_to_string level
            ++ (codes "] " ++ (component ++ (codes ": " ++ (message ++ codes "\n"))))))

-- A write at the end of the open stream, then `flush`.
unfoldable pub append : Env → Text → Logger → Files → Logger × Files
append env text logger fs = elim logger.log_file [
  | none ↦ (logger, fs)
  | some path ↦
      let content = read_all fs path ++ text in
      if logger.good
      then (
        record logger { good = env.write_good path content },
        put fs path (env.stored path content),
      )
      else (logger, fs)
]

module _ (env : Env) where
  -- `has_dir` is whether the directory is there or can be made. Opening to append creates the file.
  unfoldable pub initialize : Bool → Text → LogLevel → Logger → Files → Logger × Files × Bool
  initialize has_dir log_dir min_level logger fs =
      if logger.initialized
      then (logger, fs, true)
      else if not has_dir
      then (logger, fs, false)
      else if not (env.can_open (log_path log_dir))
      then (logger, fs, false)
      else (
        record {
          log_file = some (log_path log_dir);
          good = true;
          min_level = min_level;
          initialized = true;
        },
        put fs (log_path log_dir) (read_all fs (log_path log_dir)),
        true,
      )

  unfoldable pub log : Text → LogLevel → Text → Text → Logger → Files → Logger × Files
  unfolding append formatted
  log timestamp level component message logger fs =
      if not logger.initialized || ltb (rank level) (rank logger.min_level)
      then (logger, fs)
      else append env (formatted timestamp level component message) logger fs

abbrev pub set_level : LogLevel → Logger → Logger
set_level level logger = record logger { min_level = level }

abbrev pub shutdown : Logger → Logger
shutdown logger = record logger { log_file = none; initialized = false }
