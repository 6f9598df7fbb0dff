-- ===== src/Transaction/Tests.antt =====
-- Runs of the transaction's state machine and manager at concrete inputs.
use Prim.Native.String.{String}
use embedded_linux_ota.Prelude.{
  ℕ, true, List, append-nil, inl, inr, [], ◌∷◌, ◌++◌, none, some, ◌≡◌, ◌⊎◌, refl, arith,
  if◌then◌else◌, take,
}
use embedded_linux_ota.Text.{Text, codes, text_eq}
use embedded_linux_ota.Json.{escape_json_string}
use embedded_linux_ota.Json.Document.{document}
use embedded_linux_ota.Fs.{Files, put, tmp_of}
use embedded_linux_ota.Fs.Examples.{
  good_env, good_env-IsHonest, good_env-IsHealthy, closed_env, closed_env-IsHonest,
}
use embedded_linux_ota.Transaction.State.{
  TransactionState, idle, checking, update_available, downloading, downloaded, verifying, verified,
  installing, installed, failed, can_transition, transaction_state_to_string,
  string_to_transaction_state, new_machine, set_transition_callback, transition_to,
}
use embedded_linux_ota.Transaction.Phases.{
  string_to_state-to_string, can_transition_iff, ◌⟶◌, Step, steps, request_all, whole_way,
  installed_trail,
}
use embedded_linux_ota.Transaction.Manager.{
  TransactionRecord, TransactionHistoryEntry, Session, empty_record, new_manager, set_config,
  get_test_config, transaction_file, transaction_fields, persist_transaction, read_transaction,
  load_transaction, has_active_transaction,
}
use embedded_linux_ota.Transaction.Persist.{IsStorable, read_transaction-document}
use embedded_linux_ota.Transaction.Recovery.{
  current_document, persist_transaction_cases, restart, load_transaction-persist,
}
use embedded_linux_ota.Transaction.Manager.History.{
  Directory, load_history, add_history_entry, entry_fields, read_entry,
}
use embedded_linux_ota.Transaction.Manager.Operations.{
  update_state, record_failure, complete_transaction,
}
use embedded_linux_ota.Transaction.Interruption.{persist_calls, persist_transaction-persist_calls}
use embedded_linux_ota.Fs.Calls.{appends, perform, perform_all}
use embedded_linux_ota.Transaction.Lifecycle.{
  Moved, update_state-Moved, record_failure_iff_active, complete_transaction_lem,
}
use embedded_linux_ota.Transaction.Pruning.{
  add_history_entry_full, add_history_entry_lem, IsStorableEntry, read_entry-document,
}

string_to_state-to_string_instance :
    string_to_transaction_state (transaction_state_to_string verifying) ≡ verifying
string_to_state-to_string_instance = string_to_state-to_string verifying

can_transition_iff_example :
    (can_transition verified installing ≡ true → verified ⟶ installing)
    × (verified ⟶ installing → can_transition verified installing ≡ true)
can_transition_iff_example = can_transition_iff verified installing

abbrev updating : List (TransactionState × Text)
updating =
    (checking, [])
    ∷ (failed, [])
    ∷ (idle, [])
    ∷ (checking, [])
    ∷ (update_available, [])
    ∷ (installed, [])
    ∷ (downloading, [])
    ∷ (downloaded, [])
    ∷ (verifying, [])
    ∷ (verified, [])
    ∷ (installing, [])
    ∷ (installed, [])
    ∷ []

installed_trail_example :
    (before : List Step) × (steps
        (request_all (set_transition_callback new_machine) updating).notices
      ≡ whole_way ++ before)
unfolding transition_to
installed_trail_example = installed_trail updating refl

abbrev sample_record : TransactionRecord
sample_record = record empty_record {
  transaction_id = codes "id-1";
  state = installing;
  target_version = codes "1.1.0";
  source_version = codes "1.0.0";
  error_message = codes "say \"no\"\n";
  started_at = codes "2026-09-03T12:00:00Z";
  updated_at = codes "2026-09-03T12:05:00Z";
  owner_pid = 4242;
}

sample_record-IsStorable : IsStorable sample_record
unfolding text_eq
sample_record-IsStorable = record {
  transaction_id = refl;
  target_version = refl;
  source_version = refl;
  hardware_version = refl;
  download_path = refl;
  installation_target = refl;
  sha256 = refl;
  error_code = refl;
  error_message = refl;
  started_at = refl;
  updated_at = refl;
  owner_pid = omega arith;
  active_slot = refl;
  target_slot = refl;
}

read_transaction-document_instance :
    read_transaction (document (transaction_fields sample_record)) ≡ sample_record
read_transaction-document_instance =
    read_transaction-document sample_record sample_record-IsStorable

-- A version that is the name of a key is read back wrong: the search for the key stops at it.
key_as_value :
    (read_transaction (
      document (
        transaction_fields
          (record sample_record { transaction_id = codes "target_version" })))).target_version
    ≡ codes "INSTALLING"
unfolding read_transaction escape_json_string
key_as_value = refl

abbrev sample : Session
sample = record {
  tm = record (set_config new_manager (get_test_config (codes "/t"))) {
    current_transaction = sample_record;
  };
  files = λ path. none;
  history_files = [];
}

persist_transaction_cases_instance :
    ((persist_transaction closed_env sample).0.tm ≡ sample.tm)
    × ((persist_transaction closed_env sample).0.files (transaction_file sample.tm) ≡ (
        if (persist_transaction closed_env sample).1
        then some (current_document sample)
        else sample.files (transaction_file sample.tm)))
persist_transaction_cases_instance = persist_transaction_cases closed_env sample closed_env-IsHonest

-- The process stops between the write and the rename.
abbrev before_rename : Files
before_rename =
    perform (appends (tmp_of (transaction_file sample.tm)) (current_document sample))
      (put sample.files (tmp_of (transaction_file sample.tm)) [])

persist_transaction-persist_calls_example :
    (perform_all (persist_calls good_env sample (current_document sample ∷ [])) sample.files
      ≡ (persist_transaction good_env sample).0.files)
    × ((before_rename (transaction_file sample.tm) ≡ sample.files (transaction_file sample.tm))
        ⊎ (before_rename (transaction_file sample.tm) ≡ some (current_document sample)))
unfolding perform
persist_transaction-persist_calls_example =
    persist_transaction-persist_calls good_env sample (current_document sample ∷ []) before_rename
      good_env-IsHonest (append-nil (current_document sample)) (inr (inr (inl refl)))

load_transaction-persist_example :
    ((load_transaction (restart (persist_transaction good_env sample).0)).1 ≡ true)
    × ((load_transaction (restart (persist_transaction good_env sample).0)).0.tm.current_transaction
        ≡ sample_record)
load_transaction-persist_example =
    load_transaction-persist good_env sample good_env-IsHealthy sample_record-IsStorable

update_state-Moved_example :
    Moved failed
      (codes "E")
      (codes "m")
      (codes "now")
      sample
      (update_state closed_env (codes "now") failed (codes "E") (codes "m") sample)
update_state-Moved_example =
    update_state-Moved closed_env (codes "now") failed (codes "E") (codes "m") sample
      closed_env-IsHonest

abbrev history_dir : Directory
history_dir = record { listing = λ files. files; can_create = true; can_remove = λ name. true }

record_failure_iff_active_instance :
    (record_failure good_env history_dir [] [] (codes "E") (codes "m") sample).1
    ≡ has_active_transaction sample.tm
record_failure_iff_active_instance =
    record_failure_iff_active good_env history_dir [] [] (codes "E") (codes "m") sample
      good_env-IsHealthy

complete_transaction_lem_instance :
    let s' = (complete_transaction good_env history_dir [] [] sample).0 in
    (installing ≡ installing)
    × (s'.tm.current_transaction.state ≡ installed)
    × (s'.files (transaction_file sample.tm) ≡ some (current_document s'))
complete_transaction_lem_instance =
    complete_transaction_lem good_env history_dir [] [] sample good_env-IsHonest
      (unfold complete_transaction text_eq in refl)

abbrev entry_at : String → String → TransactionHistoryEntry
entry_at id time = record {
  transaction_id = codes id;
  version = codes "1.1.0";
  result = codes "SUCCESS";
  started_at = codes "10:00";
  completed_at = codes time;
  sha256 = [];
}

entry-IsStorable : IsStorableEntry (entry_at "id-1" "12:00")
unfolding text_eq
entry-IsStorable = record {
  transaction_id = refl;
  version = refl;
  result = refl;
  started_at = refl;
  completed_at = refl;
  sha256 = refl;
}

read_entry-document_instance :
    read_entry (document (entry_fields (entry_at "id-1" "12:00"))) ≡ entry_at "id-1" "12:00"
read_entry-document_instance = read_entry-document (entry_at "id-1" "12:00") entry-IsStorable

-- A disk with two entries, and room for `n`.
abbrev with_history : ℕ → Session
with_history n = record sample {
  tm = record sample.tm { config = record sample.tm.config { max_history_entries = n } };
  history_files =
      (codes "a.json", document (entry_fields (entry_at "a" "11:00")))
      ∷ (codes "b.json", document (entry_fields (entry_at "b" "12:00")))
      ∷ [];
}

load_history_sorts :
    (load_history history_dir (with_history 2)).tm.history
    ≡ entry_at "b" "12:00" ∷ entry_at "a" "11:00" ∷ []
unfolding load_history escape_json_string
load_history_sorts = refl

add_history_entry_full_instance :
    (add_history_entry good_env history_dir (entry_at "c" "13:00") (with_history 2)).0.tm.history
    ≡ (load_history history_dir (with_history 2)).tm.history
add_history_entry_full_instance =
    add_history_entry_full good_env history_dir (entry_at "c" "13:00") (with_history 2)
      (unfold load_history escape_json_string in refl)

add_history_entry_lem_example :
    (add_history_entry good_env history_dir (entry_at "c" "13:00") (with_history 3)).0.tm.history
    ≡ take 3 ((load_history history_dir (with_history 3)).tm.history ++ entry_at "c" "13:00" ∷ [])
add_history_entry_lem_example =
    add_history_entry_lem good_env history_dir (entry_at "c" "13:00") (with_history 3)
