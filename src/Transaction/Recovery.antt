-- ===== src/Transaction/Recovery.antt =====
-- What a transaction leaves on disk, and what a later start of the program finds.
use embedded_linux_ota.Prelude.{false, true, false, some, ◌≡◌, refl, arith, ap, ◌∙◌, if◌then◌else◌}
use embedded_linux_ota.Text.{Text, is_empty}
use embedded_linux_ota.Json.Document.{document}
use embedded_linux_ota.Fs.{Env, IsHonest, IsHealthy, tmp_of}
use embedded_linux_ota.Text.Search.{text_eq_refl}
use embedded_linux_ota.Fs.Replace.{tmp-ne}
use embedded_linux_ota.Transaction.State.{TransactionState, idle, transaction_state_to_string}
use embedded_linux_ota.Transaction.Persist.{IsStorable, read_transaction-document, read_state_name}
use embedded_linux_ota.Transaction.Manager.{
  TransactionRecord, Session, transaction_file, transaction_fields, persist_transaction,
  load_transaction, set_config, new_manager,
}

-- The text of `transaction.json` for the current transaction.
abbrev pub current_document : Session → Text
current_document s = document (transaction_fields s.tm.current_transaction)

-- Persisting leaves the manager as it is; on a system whose good streams store what was written,
-- the file is the whole new document when success is reported and else what it was.
pub persist_transaction_cases :
    (env : Env) (s : Session)
    → IsHonest env
    → ((persist_transaction env s).0.tm ≡ s.tm)
      × ((persist_transaction env s).0.files (transaction_file s.tm) ≡ (
          if (persist_transaction env s).1
          then some (current_document s)
          else s.files (transaction_file s.tm)))
unfolding persist_transaction
persist_transaction_cases env s honest =
    let path = transaction_file s.tm in
    ground (
      arith,
      text_eq_refl path,
      text_eq_refl (tmp_of path),
      tmp-ne path,
      honest (tmp_of path) (current_document s),
    )

-- On a healthy system persisting succeeds.
pub persist_transaction-IsHealthy :
    (env : Env) (s : Session) → IsHealthy env → (persist_transaction env s).1 ≡ true
unfolding persist_transaction
persist_transaction-IsHealthy env s healthy =
    let path = transaction_file s.tm in
    ground (
      arith,
      text_eq_refl (tmp_of path),
      healthy.opens (tmp_of path),
      healthy.writes (tmp_of path) (current_document s),
      healthy.renames (tmp_of path) path,
    )

state_name_full : (st : TransactionState) → is_empty (transaction_state_to_string st) ≡ false
state_name_full idle = refl
state_name_full _ = refl

-- A file that holds the document of a storable record is loaded as that record.
load_transaction-document :
    (r : TransactionRecord) (s : Session)
    → IsStorable r
    → s.files (transaction_file s.tm) ≡ some (document (transaction_fields r))
    → load_transaction s ≡ (record s { tm = record s.tm { current_transaction = r } }, true)
unfolding load_transaction
load_transaction-document r s safe e = rw e (
    rw (read_state_name r safe, state_name_full r.state)
      (rw (read_transaction-document r safe) refl))

-- A new process on the same disk.
abbrev pub restart : Session → Session
restart s = record s { tm = set_config new_manager s.tm.config }

-- On a healthy system, a process that starts after a storable record was persisted loads it
-- unchanged.
pub load_transaction-persist :
    (env : Env) (s : Session)
    → IsHealthy env
    → IsStorable s.tm.current_transaction
    → ((load_transaction (restart (persist_transaction env s).0)).1 ≡ true)
      × ((load_transaction (restart (persist_transaction env s).0)).0.tm.current_transaction
          ≡ s.tm.current_transaction)
load_transaction-persist env s healthy safe =
    let (kept, on_disk) = persist_transaction_cases env s healthy.honest in
    let found = rw (persist_transaction-IsHealthy env s healthy) at on_disk in
    let place : transaction_file (restart (persist_transaction env s).0).tm
        ≡ transaction_file s.tm =
      ap transaction_file kept in
    let loaded =
      load_transaction-document s.tm.current_transaction (restart (persist_transaction env s).0)
        safe (ap (persist_transaction env s).0.files place ∙ found) in
    (ap (λ p. p.1) loaded, ap (λ p. p.0.tm.current_transaction) loaded)
