-- ===== src/Transaction/Manager/Operations.antt =====
-- The operations of `TransactionManager` on the current transaction, and its lock.
use embedded_linux_ota.Prelude.{
  ℕ, Bool, true, false, not, [], ◌++◌, Option, none, some, if◌then◌else◌,
}
use embedded_linux_ota.Text.{Text, codes}
use embedded_linux_ota.Fs.{Env}
use embedded_linux_ota.Transaction.State.{
  TransactionState, idle, installed, failed, state_eq, can_transition, transaction_state_to_string,
}
use embedded_linux_ota.Transaction.Manager.{
  TransactionRecord, TransactionManager, Session, persist_transaction, has_incomplete_transaction,
}
use embedded_linux_ota.Transaction.Manager.History.{Directory, record_history}

abbrev pub with_record : Session → TransactionRecord → Session
with_record s r = record s { tm = record s.tm { current_transaction = r } }

-- `create_transaction`; the new identifier, the time and the process are given. The slots of the
-- record are not cleared.
unfoldable pub create_transaction :
    Env → Text → Text → ℕ → Text → Text → Text → Text → Session → Session × Bool
unfolding persist_transaction
create_transaction env id now pid target_version source_version hardware_version sha256 s =
    persist_transaction env (
      with_record s (record s.tm.current_transaction {
        transaction_id = id;
        state = idle;
        target_version = target_version;
        source_version = source_version;
        hardware_version = hardware_version;
        sha256 = sha256;
        error_code = [];
        error_message = [];
        download_path = [];
        installation_target = [];
        started_at = now;
        updated_at = now;
        owner_pid = pid;
      }))

-- The record after an allowed transition; the error is kept for a failure only.
abbrev pub moved_to : TransactionRecord → TransactionState → Text → Text → Text → TransactionRecord
moved_to r new_state error_code error_message now =
    let failing = state_eq new_state failed in
    record r {
      state = new_state;
      error_code = if failing then error_code else r.error_code;
      error_message = if failing then error_message else r.error_message;
      updated_at = now;
    }

unfoldable pub update_state : Env → Text → TransactionState → Text → Text → Session → Session × Bool
unfolding can_transition persist_transaction
update_state env now new_state error_code error_message s =
    let r = s.tm.current_transaction in
    if not (can_transition r.state new_state)
    then (s, false)
    else persist_transaction env (with_record s (moved_to r new_state error_code error_message now))

unfoldable pub update_download_path : Env → Text → Text → Session → Session × Bool
unfolding persist_transaction
update_download_path env now path s =
    persist_transaction env
      (with_record s (record s.tm.current_transaction { download_path = path; updated_at = now }))

unfoldable pub update_installation_target : Env → Text → Text → Session → Session × Bool
unfolding persist_transaction
update_installation_target env now target s = persist_transaction env (
    with_record s
      (record s.tm.current_transaction { installation_target = target; updated_at = now }))

unfoldable pub update_active_slot : Env → Text → Text → Session → Session × Bool
unfolding persist_transaction
update_active_slot env now slot s =
    persist_transaction env
      (with_record s (record s.tm.current_transaction { active_slot = slot; updated_at = now }))

unfoldable pub update_target_slot : Env → Text → Text → Session → Session × Bool
unfolding persist_transaction
update_target_slot env now slot s =
    persist_transaction env
      (with_record s (record s.tm.current_transaction { target_slot = slot; updated_at = now }))

-- A transition, and an entry of the history if it succeeded; `later` is the time that the entry bears.
abbrev pub settle : Env → Directory → Text → Text → Session × Bool → Session × Bool
settle env dir later result (s, false) = (s, false)
settle env dir later result (s, true) =
    (record_history env dir later result s.tm.current_transaction.sha256 s, true)

unfoldable pub record_failure :
    Env → Directory → Text → Text → Text → Text → Session → Session × Bool
unfolding update_state record_history
record_failure env dir now later error_code error_message s =
    settle env dir later (codes "FAILED") (update_state env now failed error_code error_message s)

unfoldable pub complete_transaction : Env → Directory → Text → Text → Session → Session × Bool
unfolding update_state record_history
complete_transaction env dir now later s =
    settle env dir later (codes "SUCCESS") (update_state env now installed [] [] s)

unfoldable pub abort_transaction : Env → Directory → Text → Text → Session → Session × Bool
unfolding update_state record_history
abort_transaction env dir now later s =
    settle env dir later (codes "FAILED")
      (update_state env now failed (codes "ABORTED") (codes "Transaction aborted by user") s)

abbrev pub detect_incomplete_state : TransactionManager → Text
detect_incomplete_state tm =
    let r = tm.current_transaction in
    if not (has_incomplete_transaction tm)
    then []
    else codes "Previous OTA transaction detected.\n"
      ++ (codes "Transaction ID: "
          ++ (r.transaction_id
              ++ (codes "\nState: "
                  ++ (transaction_state_to_string r.state
                      ++ (codes "\nTarget version: "
                          ++ (r.target_version
                              ++ (codes "\nStarted: "
                                  ++ (r.started_at ++ codes "\nRecovery required.\n"))))))))

-- `acquire_lock`: what `open` returned, and whether `fcntl` gave the lock. A lock that was held
-- before is forgotten by its descriptor, not by `owns_lock`.
unfoldable pub acquire_lock : Option ℕ → Bool → TransactionManager → TransactionManager × Bool
acquire_lock none free tm = (record tm { lock_fd = none }, false)
acquire_lock (some fd) free tm =
    if free
    then (record tm { lock_fd = some fd; owns_lock = true }, true)
    else (record tm { lock_fd = none }, false)

-- `release_lock`: the manager, and the descriptor that was unlocked and closed.
unfoldable pub release_lock : TransactionManager → TransactionManager × Option ℕ
release_lock tm =
    let closed = record tm { lock_fd = none; owns_lock = false } in
    if tm.owns_lock
    then elim tm.lock_fd [ none ↦ (tm, none) | some fd ↦ (closed, some fd) ]
    else (tm, none)
