-- ===== src/Transaction/Manager/History.antt =====
-- The history of `TransactionManager`: one `.json` file for each entry.
use embedded_linux_ota.Prelude.{
  ℕ, zero, suc, Bool, true, false, ◌&&◌, ◌||◌, List, [], ◌∷◌, ◌++◌, ltb, if◌then◌else◌, length,
  ◌==◌,
}
use embedded_linux_ota.Text.{Text, codes, text_eq, is_empty}
use embedded_linux_ota.Json.{escape_json_string, extract_json_value}
use embedded_linux_ota.Json.Document.{Field, quoted, document}
use embedded_linux_ota.Fs.{Env}
use embedded_linux_ota.Transaction.Manager.{TransactionHistoryEntry, TransactionManager, Session}

-- The order in which the directory iterator yields the files, whether the directory can be made, and
-- which of its files can be removed.
pub record Directory : Type 0 where
  pub listing : List (Text × Text) → List (Text × Text)
  pub can_create : Bool
  pub can_remove : Text → Bool

-- `operator<` of two strings.
unfoldable pub text_lt : Text → Text → Bool
text_lt s [] = false
text_lt [] (d ∷ t) = true
text_lt (c ∷ s) (d ∷ t) = ltb c d || (c == d && text_lt s t)

unfoldable pub read_entry : Text → TransactionHistoryEntry
unfolding extract_json_value
read_entry json = record {
  transaction_id = extract_json_value json (codes "transaction_id");
  version = extract_json_value json (codes "version");
  result = extract_json_value json (codes "result");
  started_at = extract_json_value json (codes "started_at");
  completed_at = extract_json_value json (codes "completed_at");
  sha256 = extract_json_value json (codes "sha256");
}

abbrev pub entry_fields : TransactionHistoryEntry → List Field
entry_fields e =
    quoted (codes "transaction_id") (escape_json_string e.transaction_id)
    ∷ quoted (codes "version") (escape_json_string e.version)
    ∷ quoted (codes "result") (escape_json_string e.result)
    ∷ quoted (codes "started_at") (escape_json_string e.started_at)
    ∷ quoted (codes "completed_at") (escape_json_string e.completed_at)
    ∷ quoted (codes "sha256") (escape_json_string e.sha256)
    ∷ []

-- The loop of `load_history`: empty and malformed files are passed over.
unfoldable pub read_entries : List (Text × Text) → List TransactionHistoryEntry
unfolding read_entry
read_entries [] = []
read_entries ((name, json) ∷ files) =
    let rest = read_entries files in
    let e = read_entry json in
    if is_empty json || is_empty e.transaction_id || is_empty e.version then rest else e ∷ rest

-- `std::sort` by `completed_at`, the latest first; which of two equal times comes first is not said.
insert_by_time :
    TransactionHistoryEntry → List TransactionHistoryEntry → List TransactionHistoryEntry
insert_by_time e [] = e ∷ []
insert_by_time e (x ∷ xs) =
    if text_lt e.completed_at x.completed_at then x ∷ insert_by_time e xs else e ∷ x ∷ xs

unfoldable pub sort_by_time : List TransactionHistoryEntry → List TransactionHistoryEntry
unfolding text_lt insert_by_time
sort_by_time [] = []
sort_by_time (e ∷ es) = insert_by_time e (sort_by_time es)

unfoldable pub load_history : Directory → Session → Session
unfolding read_entries sort_by_time
load_history dir s = record s {
  tm = record s.tm { history = sort_by_time (read_entries (dir.listing s.history_files)) };
}

-- `history_.pop_back()`.
unfoldable pub drop_last : List TransactionHistoryEntry → List TransactionHistoryEntry
drop_last [] = []
drop_last (e ∷ []) = []
drop_last (e ∷ f ∷ es) = e ∷ drop_last (f ∷ es)

-- The loop of `prune_history`, with fuel for its rounds.
unfoldable pub prune_loop : ℕ → ℕ → List TransactionHistoryEntry → List TransactionHistoryEntry
unfolding drop_last
prune_loop zero max es = es
prune_loop (suc fuel) max es =
    let rest = prune_loop fuel max (drop_last es) in if ltb max (length es) then rest else es

unfoldable pub prune_history : TransactionManager → TransactionManager
unfolding prune_loop
prune_history tm = record tm {
  history = prune_loop (length tm.history) tm.config.max_history_entries tm.history;
}

-- A file of the history directory is written anew, or added.
unfoldable pub put_entry : Text → Text → List (Text × Text) → List (Text × Text)
put_entry name json [] = (name, json) ∷ []
put_entry name json ((n, j) ∷ files) =
    if text_eq name n then (name, json) ∷ files else (n, j) ∷ put_entry name json files

-- The writing loop of `save_history`; it stops at the first file that is not written well.
unfoldable pub write_entries :
    Env → Text → List TransactionHistoryEntry → List (Text × Text) → List (Text × Text) × Bool
unfolding put_entry
write_entries env dir [] files = (files, true)
write_entries env dir (e ∷ es) files =
    let name = e.transaction_id ++ codes ".json" in
    let path = dir ++ (b'/' ∷ name) in
    let json = document (entry_fields e) in
    let written = put_entry name (env.stored path json) files in
    let rest = write_entries env dir es written in
    if env.can_open path
    then (if env.write_good path json then rest else (written, false))
    else (files, false)

-- The removing loop of `save_history`: a file that cannot be removed stays, which is not asked.
unfoldable pub remove_entries : (Text → Bool) → List (Text × Text) → List (Text × Text)
remove_entries can_remove [] = []
remove_entries can_remove ((name, json) ∷ files) =
    let rest = remove_entries can_remove files in
    if can_remove name then rest else (name, json) ∷ rest

-- `save_history`: the `.json` files are removed, then the entries are written.
unfoldable pub save_history : Env → Directory → Session → Session × Bool
unfolding write_entries remove_entries
save_history env dir s =
    let kept = remove_entries dir.can_remove s.history_files in
    if dir.can_create
    then (let (files, good) = write_entries env s.tm.config.history_dir s.tm.history kept in
        (record s { history_files = files }, good))
    else (s, false)

unfoldable pub add_history_entry :
    Env → Directory → TransactionHistoryEntry → Session → Session × Bool
unfolding load_history prune_history save_history
add_history_entry env dir entry s =
    let loaded = load_history dir s in
    let pushed = record loaded.tm { history = loaded.tm.history ++ entry ∷ [] } in
    save_history env dir (record loaded { tm = prune_history pushed })

-- `record_history`; `now` is the time that it reads.
unfoldable pub record_history : Env → Directory → Text → Text → Text → Session → Session
unfolding add_history_entry
record_history env dir now result sha256 s =
    let entry : TransactionHistoryEntry = record {
      transaction_id = s.tm.current_transaction.transaction_id;
      version = s.tm.current_transaction.target_version;
      result = result;
      started_at = s.tm.current_transaction.started_at;
      completed_at = now;
      sha256 = sha256;
    } in
    (add_history_entry env dir entry s).0
