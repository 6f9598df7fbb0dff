-- ===== src/Transaction/Along.antt =====
-- The operations of the manager, one by one, and the diagram of the states.
use embedded_linux_ota.Prelude.{ℕ, Bool, true, false, Option}
use embedded_linux_ota.Text.{Text}
use embedded_linux_ota.Fs.{Env}
use embedded_linux_ota.Transaction.State.{TransactionState}
use embedded_linux_ota.Transaction.Manager.{TransactionHistoryEntry, Session, load_transaction}
use embedded_linux_ota.Transaction.Manager.History.{
  Directory, add_history_entry, save_history, load_history,
}
use embedded_linux_ota.Transaction.Manager.Operations.{
  update_state, create_transaction, record_failure, complete_transaction, abort_transaction,
  update_download_path, update_installation_target, update_active_slot, update_target_slot,
  acquire_lock, release_lock,
}

-- The operations of the manager: those on the transaction, the assignments to its record, the loading
-- of its file, those on the history, and those on the lock.
pub data Op : Type 0 where
  create : Text → Text → Text → Text → Op
  update : TransactionState → Text → Text → Op
  fail : Text → Text → Op
  complete abort : Op
  download_path_set installation_target_set active_slot_set target_slot_set : Text → Op
  load : Op
  entry_added : TransactionHistoryEntry → Op
  history_loaded history_saved : Op
  lock : Option ℕ → Bool → Op
  unlock : Op

-- One operation, with the answers that it gets from outside.
abbrev pub run_op : Env → Directory → Text → Text → Text → ℕ → Op → Session → Session × Bool
run_op env dir now later id pid (create target source hw sha) s =
    create_transaction env id now pid target source hw sha s
run_op env dir now later id pid (update t code message) s = update_state env now t code message s
run_op env dir now later id pid (fail code message) s =
    record_failure env dir now later code message s
run_op env dir now later id pid complete s = complete_transaction env dir now later s
run_op env dir now later id pid abort s = abort_transaction env dir now later s
run_op env dir now later id pid (download_path_set path) s = update_download_path env now path s
run_op env dir now later id pid (installation_target_set target) s =
    update_installation_target env now target s
run_op env dir now later id pid (active_slot_set slot) s = update_active_slot env now slot s
run_op env dir now later id pid (target_slot_set slot) s = update_target_slot env now slot s
run_op env dir now later id pid load s = load_transaction s
run_op env dir now later id pid (entry_added entry) s = add_history_entry env dir entry s
run_op env dir now later id pid history_loaded s = (load_history dir s, true)
run_op env dir now later id pid history_saved s = save_history env dir s
run_op env dir now later id pid (lock fd free) s =
    let (tm, done) = acquire_lock fd free s.tm in (record s { tm = tm }, done)
run_op env dir now later id pid unlock s = (record s { tm = (release_lock s.tm).0 }, true)

abbrev pub is_create : Op → Bool
is_create (create _ _ _ _) = true
is_create _ = false

abbrev pub is_load : Op → Bool
is_load load = true
is_load _ = false
