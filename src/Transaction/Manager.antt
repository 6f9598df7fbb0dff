-- ===== src/Transaction/Manager.antt =====
-- The data and the persistence of `TransactionManager`
-- (include/transaction/transaction_manager.h, src/transaction/transaction_manager.cpp).
pub mod History
pub mod Operations
use embedded_linux_ota.Prelude.{
  ℕ, Bool, true, false, not, ◌&&◌, List, [], ◌∷◌, ◌++◌, Option, none, some, if◌then◌else◌, get_or,
}
use embedded_linux_ota.Text.{Text, codes, is_empty}
use embedded_linux_ota.Text.Decimal.{int_to_string, stoi}
use embedded_linux_ota.Json.{escape_json_string, extract_json_value}
use embedded_linux_ota.Json.Document.{Field, quoted, bare, document}
use embedded_linux_ota.Fs.{Files, Env, write_file, rename_file, tmp_of, read_all}
use embedded_linux_ota.Transaction.State.{
  TransactionState, idle, installed, failed, state_eq, transaction_state_to_string,
  string_to_transaction_state,
}

pub record TransactionRecord : Type 0 where
  pub transaction_id : Text
  pub state : TransactionState
  pub target_version : Text
  pub source_version : Text
  pub hardware_version : Text
  pub download_path : Text
  pub installation_target : Text
  pub sha256 : Text
  pub error_code : Text
  pub error_message : Text
  pub started_at : Text
  pub updated_at : Text
  pub owner_pid : ℕ  -- an int
  pub active_slot : Text
  pub target_slot : Text

pub record TransactionHistoryEntry : Type 0 where
  pub transaction_id : Text
  pub version : Text
  pub result : Text
  pub started_at : Text
  pub completed_at : Text
  pub sha256 : Text

pub record TransactionManagerConfig : Type 0 where
  pub state_dir : Text
  pub history_dir : Text
  pub lock_file : Text
  pub max_history_entries : ℕ

-- `lock_fd` is `none` for -1.
pub record TransactionManager : Type 0 where
  pub config : TransactionManagerConfig
  pub current_transaction : TransactionRecord
  pub history : List TransactionHistoryEntry
  pub lock_fd : Option ℕ
  pub owns_lock : Bool

-- A manager and the disk: the files by path, and the `.json` files of the history directory by name.
pub record Session : Type 0 where
  pub tm : TransactionManager
  pub files : Files
  pub history_files : List (Text × Text)

abbrev pub get_test_config : Text → TransactionManagerConfig
get_test_config base_dir = record {
  state_dir = base_dir ++ codes "/state";
  history_dir = base_dir ++ codes "/state/history";
  lock_file = base_dir ++ codes "/ota.lock";
  max_history_entries = 10;
}

abbrev pub get_default_config : TransactionManagerConfig
get_default_config = record {
  state_dir = codes "/var/lib/ota/state";
  history_dir = codes "/var/lib/ota/state/history";
  lock_file = codes "/var/lib/ota/ota.lock";
  max_history_entries = 10;
}

abbrev pub empty_record : TransactionRecord
empty_record = record {
  transaction_id = [];
  state = idle;
  target_version = [];
  source_version = [];
  hardware_version = [];
  download_path = [];
  installation_target = [];
  sha256 = [];
  error_code = [];
  error_message = [];
  started_at = [];
  updated_at = [];
  owner_pid = 0;
  active_slot = [];
  target_slot = [];
}

abbrev pub new_manager : TransactionManager
new_manager = record {
  config = get_default_config;
  current_transaction = empty_record;
  history = [];
  lock_fd = none;
  owns_lock = false;
}

abbrev pub set_config : TransactionManager → TransactionManagerConfig → TransactionManager
set_config tm config = record tm { config = config }

abbrev pub transaction_file : TransactionManager → Text
transaction_file tm = tm.config.state_dir ++ codes "/transaction.json"

-- The lines of `transaction.json`; the state's name is the only text that is not escaped.
abbrev pub transaction_fields : TransactionRecord → List Field
transaction_fields r =
    quoted (codes "transaction_id") (escape_json_string r.transaction_id)
    ∷ quoted (codes "state") (transaction_state_to_string r.state)
    ∷ quoted (codes "target_version") (escape_json_string r.target_version)
    ∷ quoted (codes "source_version") (escape_json_string r.source_version)
    ∷ quoted (codes "hardware_version") (escape_json_string r.hardware_version)
    ∷ quoted (codes "download_path") (escape_json_string r.download_path)
    ∷ quoted (codes "installation_target") (escape_json_string r.installation_target)
    ∷ quoted (codes "sha256") (escape_json_string r.sha256)
    ∷ quoted (codes "error_code") (escape_json_string r.error_code)
    ∷ quoted (codes "error_message") (escape_json_string r.error_message)
    ∷ quoted (codes "started_at") (escape_json_string r.started_at)
    ∷ quoted (codes "updated_at") (escape_json_string r.updated_at)
    ∷ bare (codes "owner_pid") (int_to_string r.owner_pid)
    ∷ quoted (codes "active_slot") (escape_json_string r.active_slot)
    ∷ quoted (codes "target_slot") (escape_json_string r.target_slot)
    ∷ []

-- `persist_transaction`: only a good write is renamed over the file.
unfoldable pub persist_transaction : Env → Session → Session × Bool
unfolding write_file rename_file
persist_transaction env s =
    let path = transaction_file s.tm in
    let json = document (transaction_fields s.tm.current_transaction) in
    let (written, good) = write_file env (tmp_of path) json s.files in
    let (renamed, moved) = rename_file env (tmp_of path) path written in
    if good then (record s { files = renamed }, moved) else (record s { files = written }, false)

-- The assignments of `load_transaction`, for a file whose state is there.
unfoldable pub read_transaction : Text → TransactionRecord
unfolding extract_json_value string_to_transaction_state stoi
read_transaction json = record {
  transaction_id = extract_json_value json (codes "transaction_id");
  state = string_to_transaction_state (extract_json_value json (codes "state"));
  target_version = extract_json_value json (codes "target_version");
  source_version = extract_json_value json (codes "source_version");
  hardware_version = extract_json_value json (codes "hardware_version");
  download_path = extract_json_value json (codes "download_path");
  installation_target = extract_json_value json (codes "installation_target");
  sha256 = extract_json_value json (codes "sha256");
  error_code = extract_json_value json (codes "error_code");
  error_message = extract_json_value json (codes "error_message");
  started_at = extract_json_value json (codes "started_at");
  updated_at = extract_json_value json (codes "updated_at");
  owner_pid = get_or 0 (stoi (extract_json_value json (codes "owner_pid")));
  active_slot = extract_json_value json (codes "active_slot");
  target_slot = extract_json_value json (codes "target_slot");
}

unfoldable pub load_transaction : Session → Session × Bool
load_transaction s =
    let json = read_all s.files (transaction_file s.tm) in
    if is_empty json
    then (s, false)
    else if is_empty (extract_json_value json (codes "state"))
    then (s, false)
    else (record s { tm = record s.tm { current_transaction = read_transaction json } }, true)

abbrev pub has_active_transaction : TransactionManager → Bool
has_active_transaction tm =
    not (state_eq tm.current_transaction.state idle)
    && not (state_eq tm.current_transaction.state installed)
    && not (state_eq tm.current_transaction.state failed)

abbrev pub has_incomplete_transaction : TransactionManager → Bool
has_incomplete_transaction tm =
    not (state_eq tm.current_transaction.state idle)
    && not (state_eq tm.current_transaction.state installed)
