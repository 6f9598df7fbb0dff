-- ===== src/Transaction/Lifecycle.antt =====
-- What the operations of the manager do to the current transaction.
use embedded_linux_ota.Prelude.{Bool, true, false, [], some, ◌≡◌, refl, arith, if◌then◌else◌}
use embedded_linux_ota.Text.{Text, codes}
use embedded_linux_ota.Json.Document.{document}
use embedded_linux_ota.Fs.{Env, IsHonest, IsHealthy}
use embedded_linux_ota.Transaction.State.{
  TransactionState, idle, installing, installed, failed, can_transition,
}
use embedded_linux_ota.Transaction.Manager.{
  TransactionRecord, Session, has_active_transaction, transaction_file, transaction_fields,
}
use embedded_linux_ota.Transaction.Manager.History.{
  Directory, record_history, add_history_entry, save_history, load_history, prune_history,
}
use embedded_linux_ota.Transaction.Manager.Operations.{
  update_state, record_failure, complete_transaction, moved_to, with_record, settle,
}
use embedded_linux_ota.Transaction.Recovery.{
  persist_transaction_cases, persist_transaction-IsHealthy, current_document,
}

record_history_keeps :
    (env : Env) (dir : Directory) (now result sha : Text) (s : Session)
    → ((record_history env dir now result sha s).tm.current_transaction ≡ s.tm.current_transaction)
      × ((record_history env dir now result sha s).tm.config ≡ s.tm.config)
      × ((record_history env dir now result sha s).files ≡ s.files)
unfolding record_history add_history_entry save_history load_history prune_history
record_history_keeps env dir now result sha s = ground arith

-- The record after a transition: only a failure keeps the error.
abbrev pub after_move :
    TransactionRecord → TransactionState → Text → Text → Text → TransactionRecord
after_move r failed code message now = record r {
  state = failed;
  error_code = code;
  error_message = message;
  updated_at = now;
}
after_move r t code message now = record r { state = t; updated_at = now }

pub moved_to_lem :
    (r : TransactionRecord) (t : TransactionState) (code message now : Text)
    → moved_to r t code message now ≡ after_move r t code message now
moved_to_lem r failed code message now = refl
moved_to_lem r idle code message now = refl
moved_to_lem r _ code message now = refl

-- The outcome of a requested transition to `t`. If it is allowed, the record in memory is moved, and
-- the file holds the new record exactly when success is reported, else what it held. Otherwise
-- nothing changes.
abbrev pub Moved : TransactionState → Text → Text → Text → Session → Session × Bool → Type 0
Moved t code message now s (s', done) =
    let r = after_move s.tm.current_transaction t code message now in
    if can_transition s.tm.current_transaction.state t
    then (s'.tm.current_transaction ≡ r)
      × (s'.files (transaction_file s.tm) ≡ (
          if done then some (document (transaction_fields r)) else s.files (transaction_file s.tm)))
    else ((s' ≡ s) × (done ≡ false))

-- An allowed transition sets the state and the time in memory, and for FAILED the error, and keeps
-- the rest of the record, whether or not it can be persisted; the file holds the new record
-- exactly when success is reported and else what it held, and any other transition changes nothing.
pub update_state-Moved :
    (env : Env) (now : Text) (t : TransactionState) (code message : Text) (s : Session)
    → IsHonest env
    → Moved t code message now s (update_state env now t code message s)
unfolding update_state
update_state-Moved env now t code message s honest =
    let r = s.tm.current_transaction in
    rw (← moved_to_lem r t code message now) (
      ground (
        arith,
        persist_transaction_cases env (with_record s (moved_to r t code message now)) honest,
      ))

pub settle-Moved :
    (env : Env) (dir : Directory) (later result : Text) (t : TransactionState)
    (code message now : Text) (s : Session) (p : Session × Bool)
    → Moved t code message now s p
    → Moved t code message now s (settle env dir later result p)
settle-Moved env dir later result t code message now s (s', false) m = m
settle-Moved env dir later result t code message now s (s', true) m =
    ground (arith, record_history_keeps env dir later result s'.tm.current_transaction.sha256 s')

-- On a healthy system a failure is recorded exactly when a transaction is active.
pub record_failure_iff_active :
    (env : Env) (dir : Directory) (now later code message : Text) (s : Session)
    → IsHealthy env
    → (record_failure env dir now later code message s).1 ≡ has_active_transaction s.tm
unfolding record_failure update_state can_transition
record_failure_iff_active env dir now later code message s healthy = ground (
  arith,
  persist_transaction-IsHealthy env
      (with_record s (moved_to s.tm.current_transaction failed code message now)) healthy,
)

can_transition-installed :
    (st : TransactionState) → can_transition st installed ≡ true → st ≡ installing
unfolding can_transition
can_transition-installed st h = ground arith

-- A transaction that completes was INSTALLING and is INSTALLED after it, in memory and in
-- transaction.json.
pub complete_transaction_lem :
    (env : Env) (dir : Directory) (now later : Text) (s : Session)
    → IsHonest env
    → (complete_transaction env dir now later s).1 ≡ true
    → let s' = (complete_transaction env dir now later s).0 in
      (s.tm.current_transaction.state ≡ installing)
      × (s'.tm.current_transaction.state ≡ installed)
      × (s'.files (transaction_file s.tm) ≡ some (current_document s'))
unfolding complete_transaction
complete_transaction_lem env dir now later s honest h = ground (
  arith,
  can_transition-installed s.tm.current_transaction.state,
  settle-Moved env dir later (codes "SUCCESS") installed [] [] now s
      (update_state env now installed [] [] s)
      (update_state-Moved env now installed [] [] s honest),
)
