-- ===== src/Transaction/Interruption.antt =====
-- A process that stops while it persists a transaction. Nothing is synchronised before the rename, so
-- that a loss of power may tear the new file; that is not modelled.
use embedded_linux_ota.Prelude.{
  Bool, List, [], ◌∷◌, ◌&&◌, false, true, inl, inr, some, ◌≡◌, ◌⊎◌, refl, arith, ap, ◌∙◌,
  Bool-cases, if◌then◌else◌,
}
use embedded_linux_ota.Text.{Text}
use embedded_linux_ota.Text.Search.{text_eq_refl}
use embedded_linux_ota.Fs.{Files, put, Env, IsHonest, write_file, rename_file, tmp_of}
use embedded_linux_ota.Fs.Replace.{tmp-ne}
use embedded_linux_ota.Fs.Calls.{
  Call, creates, moves, perform, perform_all, Interrupted, join, writes_then,
  perform_all-writes_then, Interrupted-writes_then,
}
use embedded_linux_ota.Transaction.Manager.{Session, transaction_file, persist_transaction}
use embedded_linux_ota.Transaction.Recovery.{current_document}

-- The system calls of `persist_transaction`, with the pieces in which the stream hands its text to the
-- system: nothing is renamed after a write that was not good, and nothing is synchronised.
abbrev pub persist_calls : Env → Session → List Text → List Call
persist_calls env s pieces =
    let path = transaction_file s.tm in
    let moved =
      env.write_good (tmp_of path) (current_document s) && env.can_rename (tmp_of path) path in
    if env.can_open (tmp_of path)
    then creates (tmp_of path)
      ∷ writes_then (tmp_of path) pieces (if moved then moves (tmp_of path) path ∷ [] else [])
    else []

-- What the writes leave.
written :
    (env : Env) (s : Session) (pieces : List Text) (cs : List Call)
    → join pieces ≡ env.stored (tmp_of (transaction_file s.tm)) (current_document s)
    → perform_all
        (writes_then (tmp_of (transaction_file s.tm)) pieces cs)
        (put s.files (tmp_of (transaction_file s.tm)) [])
      ≡ perform_all cs (
          put s.files
            (tmp_of (transaction_file s.tm))
            (env.stored (tmp_of (transaction_file s.tm)) (current_document s)))
written env s pieces cs whole =
    perform_all-writes_then (tmp_of (transaction_file s.tm)) pieces cs [] s.files
    ∙ ap (λ t. perform_all cs (put s.files (tmp_of (transaction_file s.tm)) t)) whole

-- The calls together do what `persist_transaction` does.
calls_lem :
    (env : Env) (s : Session) (pieces : List Text)
    → join pieces ≡ env.stored (tmp_of (transaction_file s.tm)) (current_document s)
    → perform_all (persist_calls env s pieces) s.files ≡ (persist_transaction env s).0.files
unfolding persist_transaction write_file rename_file perform_all perform
calls_lem env s pieces whole =
    let path = transaction_file s.tm in
    let end = written env s pieces in
    ground
      (arith, text_eq_refl (tmp_of path), end [] whole, end (moves (tmp_of path) path ∷ []) whole)

-- Behind the writes: the old file, or after the rename the new one.
stopped_behind :
    (env : Env) (s : Session) (b : Bool) (last left : Files)
    → IsHonest env
    → env.write_good (tmp_of (transaction_file s.tm)) (current_document s)
        && env.can_rename (tmp_of (transaction_file s.tm)) (transaction_file s.tm)
      ≡ b
    → last
      ≡ put s.files
          (tmp_of (transaction_file s.tm))
          (env.stored (tmp_of (transaction_file s.tm)) (current_document s))
    → Interrupted
        (if b then moves (tmp_of (transaction_file s.tm)) (transaction_file s.tm) ∷ [] else [])
        last
        left
    → (left (transaction_file s.tm) ≡ s.files (transaction_file s.tm))
      ⊎ (left (transaction_file s.tm) ≡ some (current_document s))
unfolding perform
stopped_behind env s false last left honest moved e h =
    let path = transaction_file s.tm in
    inl (ap (λ (f : Files). f path) (h ∙ e) ∙ rw (tmp-ne path) refl)
stopped_behind env s true last left honest moved e (inl h) =
    let path = transaction_file s.tm in
    inl (ap (λ (f : Files). f path) (h ∙ e) ∙ rw (tmp-ne path) refl)
stopped_behind env s true last left honest moved e (inr h) =
    let path = transaction_file s.tm in
    let kept = honest (tmp_of path) (current_document s) (ground arith) in
    inr (
      ap (λ (f : Files). f path) (h ∙ ap (perform (moves (tmp_of path) path)) e)
      ∙ ground (arith, text_eq_refl path, text_eq_refl (tmp_of path)))

stopped :
    (env : Env) (s : Session) (pieces : List Text) (left : Files)
    → IsHonest env
    → join pieces ≡ env.stored (tmp_of (transaction_file s.tm)) (current_document s)
    → Interrupted (persist_calls env s pieces) s.files left
    → (left (transaction_file s.tm) ≡ s.files (transaction_file s.tm))
      ⊎ (left (transaction_file s.tm) ≡ some (current_document s))
unfolding perform perform_all
stopped env s pieces left honest whole h =
    let path = transaction_file s.tm in
    elim (Bool-cases (env.can_open (tmp_of path))) [
      | inr e ↦ let same : left ≡ s.files = rw e at h in inl (ap (λ (f : Files). f path) same)
      | inl e ↦ elim (rw e at h) [
        | inl same ↦ inl (ap (λ (f : Files). f path) same)
        | inr more ↦
            elim (Interrupted-writes_then (tmp_of path) path pieces _ (put s.files (tmp_of path) [])
              left (tmp-ne path) more) [
                | inl same ↦ inl (same ∙ rw (tmp-ne path) refl)
                | inr (last, made, rest) ↦
                    stopped_behind env s _ last left honest refl
                      (made ∙ written env s pieces [] whole) rest
              ]
      ]
    ]

-- On a system whose streams that are good after a flush have handed on what was written: the system
-- calls of persisting a transaction, its text handed on in any pieces, do together what
-- `persist_transaction` does, and where the process is stopped before any of them or behind the
-- last, transaction.json is the old file or the whole new document.
pub persist_transaction-persist_calls :
    (env : Env) (s : Session) (pieces : List Text) (left : Files)
    → IsHonest env
    → join pieces ≡ env.stored (tmp_of (transaction_file s.tm)) (current_document s)
    → Interrupted (persist_calls env s pieces) s.files left
    → (perform_all (persist_calls env s pieces) s.files ≡ (persist_transaction env s).0.files)
      × ((left (transaction_file s.tm) ≡ s.files (transaction_file s.tm))
          ⊎ (left (transaction_file s.tm) ≡ some (current_document s)))
persist_transaction-persist_calls env s pieces left honest whole h =
    (calls_lem env s pieces whole, stopped env s pieces left honest whole h)
