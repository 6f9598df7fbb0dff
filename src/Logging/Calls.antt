-- ===== src/Logging/Calls.antt =====
-- Sequences of calls of the logger.
use embedded_linux_ota.Prelude.{
  true, false, List, [], ◌∷◌, ◌++◌, some, none, ◌≡◌, refl, sym, ap, ◌∙◌, inl, inr, arith, ltb,
  if◌then◌else◌, append_assoc, append-nil, Bool-cases, Bool, Option,
}
use embedded_linux_ota.Text.{Text}
use embedded_linux_ota.Fs.{Files, Env, IsHealthy, put, read_all}
use embedded_linux_ota.Text.Search.{text_eq_refl}
use embedded_linux_ota.Logging.{
  LogLevel, rank, Logger, new_logger, formatted, append, initialize, log, set_level, shutdown,
  string_to_log_level, log_level_to_string, debug_level, info_level, warn_level, error_level,
}

-- A call of `debug`, `info`, `warn` or `error`.
pub record Entry : Type 0 where
  pub timestamp : Text
  pub level : LogLevel
  pub component : Text
  pub message : Text

abbrev text_of : Entry → Text
text_of e = formatted e.timestamp e.level e.component e.message

abbrev pub log_entry : Env → Entry → Logger × Files → Logger × Files
log_entry env e s = log env e.timestamp e.level e.component e.message s.0 s.1

unfoldable pub log_all : Env → List Entry → Logger × Files → Logger × Files
unfolding log
log_all env [] s = s
log_all env (e ∷ es) s = log_all env es (log_entry env e s)

-- The text of the entries at the level or above it, in their order.
abbrev pub printed : LogLevel → List Entry → Text
printed level [] = []
printed level (e ∷ es) =
    if ltb (rank e.level) (rank level) then printed level es else text_of e ++ printed level es

-- The stream of an initialised logger is open on the path, and takes writes.
pub record IsOpen (path : Text) (logger : Logger) : Type 0 where
  pub ready : logger.initialized ≡ true
  pub there : logger.log_file ≡ some path
  pub good : logger.good ≡ true

module _ (env : Env) where
  log_low :
      (e : Entry) (logger : Logger) (fs : Files)
      → ltb (rank e.level) (rank logger.min_level) ≡ true
      → log_entry env e (logger, fs) ≡ (logger, fs)
  unfolding log
  log_low e logger fs low = ground arith

  log_high :
      (path : Text) (e : Entry) (logger : Logger) (fs : Files)
      → IsHealthy env
      → IsOpen path logger
      → ltb (rank e.level) (rank logger.min_level) ≡ false
      → log_entry env e (logger, fs) ≡ (logger, put fs path (read_all fs path ++ text_of e))
  unfolding log append
  log_high path e logger fs healthy o high =
      let content = read_all fs path ++ text_of e in
      let w = healthy.writes path content in
      let h = healthy.honest path content w in
      let r = o.ready in let t = o.there in let g = o.good in ground arith

  -- On a healthy system, calls of an initialised logger append to the log file the lines of the
  -- calls at the minimum level or above it, in the order of the calls, and nothing else.
  pub log_all-printed :
      (path : Text) (es : List Entry) (logger : Logger) (fs : Files)
      → IsHealthy env
      → IsOpen path logger
      → read_all (log_all env es (logger, fs)).1 path
        ≡ read_all fs path ++ printed logger.min_level es
  unfolding log_all
  log_all-printed path [] logger fs healthy o = sym (append-nil (read_all fs path))
  log_all-printed path (e ∷ es) logger fs healthy o =
      elim (Bool-cases (ltb (rank e.level) (rank logger.min_level))) [
        | inl low ↦
            ap (λ s. read_all (log_all env es s).1 path) (log_low e logger fs low)
            ∙ log_all-printed path es logger fs healthy o
            ∙ ap (λ t. read_all fs path ++ t) (rw low refl)
        | inr high ↦
            let fs1 : Files = put fs path (read_all fs path ++ text_of e) in
            let now : read_all fs1 path ≡ read_all fs path ++ text_of e =
              rw (text_eq_refl path) refl in
            ap (λ s. read_all (log_all env es s).1 path) (log_high path e logger fs healthy o high)
            ∙ log_all-printed path es logger fs1 healthy o
            ∙ ap (λ t. t ++ printed logger.min_level es) now
            ∙ append_assoc (read_all fs path) (text_of e) (printed logger.min_level es)
            ∙ ap (λ t. read_all fs path ++ t) (rw high refl)
      ]

-- The steps of a program on its logger.
pub data Step (env : Env) : Logger × Files → Logger × Files → Type 0 where
  initializes :
      (s : Logger × Files) (has_dir : Bool) (dir : Text) (level : LogLevel)
      → Step env s (
        (initialize env has_dir dir level s.0 s.1).0,
        (initialize env has_dir dir level s.0 s.1).1,
      )
  logs : (s : Logger × Files) (e : Entry) → Step env s (log_entry env e s)
  sets : (s : Logger × Files) (level : LogLevel) → Step env s (set_level level s.0, s.1)
  shuts : (s : Logger × Files) → Step env s (shutdown s.0, s.1)

pub data Reach (env : Env) (s : Logger × Files) : Logger × Files → Type 0 where
  here : Reach env s s
  next : {t u : Logger × Files} → Reach env s t → Step env t u → Reach env s u

abbrev is_some : Option Text → Bool
is_some none = false
is_some (some path) = true

-- The stream is open exactly while the logger is initialised.
abbrev pub IsPaired : Logger → Type 0
IsPaired logger = is_some logger.log_file ≡ logger.initialized

step-IsPaired : {env : Env} {s t : Logger × Files} → Step env s t → IsPaired s.0 → IsPaired t.0
unfolding initialize log append
step-IsPaired (initializes s has_dir dir level) h = ground arith
step-IsPaired (logs s e) h = ground arith
step-IsPaired (sets s level) h = h
step-IsPaired (shuts s) h = refl

Reach-IsPaired :
    {env : Env} {fs : Files} {s : Logger × Files} → Reach env (new_logger, fs) s → IsPaired s.0
Reach-IsPaired here = refl
Reach-IsPaired (next r st) = step-IsPaired st (Reach-IsPaired r)

-- Whatever calls are made of a logger that starts with no stream: while its stream is open, the
-- logger is initialised, and another initialisation reports success and opens nothing: the stream,
-- the level and the files stay as they are.
pub Reach-initialize :
    (env : Env) (fs : Files) (s : Logger × Files) (path : Text) (has_dir : Bool) (dir : Text)
    (level : LogLevel)
    → Reach env (new_logger, fs) s
    → s.0.log_file ≡ some path
    → (s.0.initialized ≡ true) × (initialize env has_dir dir level s.0 s.1 ≡ (s.0, s.1, true))
unfolding initialize
Reach-initialize env fs s path has_dir dir level r open1 =
    let ready : s.0.initialized ≡ true = sym (Reach-IsPaired r) ∙ ap is_some open1 in
    (ready, rw (ready, initialize) refl)

-- The name of a level is read as the level.
pub level_back : (l : LogLevel) → string_to_log_level (log_level_to_string l) ≡ l
unfolding string_to_log_level log_level_to_string
level_back debug_level = refl
level_back info_level = refl
level_back warn_level = refl
level_back error_level = refl
