-- ===== src/Transaction/Pruning.antt =====
-- The history: how it is pruned, and how its entries are stored and sorted.
use embedded_linux_ota.Prelude.{
  ℕ, zero, suc, ◌+◌, ◌≤◌, ◌<◌, true, false, List, [], ◌∷◌, ◌++◌, some, ◌≡◌, refl, sym, arith, ap,
  ◌∙◌, ltb, length, length-append, take, Bool-cases, inl, inr,
}
use embedded_linux_ota.Text.{Text, codes, text_eq}
use embedded_linux_ota.Json.{escape_json_string, extract_json_value}
use embedded_linux_ota.Json.Document.{quoted, document, is_name}
use embedded_linux_ota.Json.Lookup.{AllNeutral, find_field, IsNeutral}
use embedded_linux_ota.Json.Strings.{known, IsFree, escaped-IsNeutral, extract_escaped}
use embedded_linux_ota.Fs.{Env}
use embedded_linux_ota.Transaction.Manager.{TransactionHistoryEntry, TransactionManager, Session}
use embedded_linux_ota.Transaction.Manager.History.{
  Directory, entry_fields, read_entry, load_history, drop_last, prune_loop, prune_history,
  save_history, add_history_entry,
}

length-drop_last :
    (e : TransactionHistoryEntry) (es : List TransactionHistoryEntry)
    → length (drop_last (e ∷ es)) ≡ length es
unfolding drop_last
length-drop_last e [] = refl
length-drop_last e (f ∷ es) = ap suc (length-drop_last f es)

take-drop_last :
    (n : ℕ) (es : List TransactionHistoryEntry) → n < length es → take n (drop_last es) ≡ take n es
unfolding drop_last
take-drop_last zero es h = refl
take-drop_last (suc n) [] h = elim h [ ]
take-drop_last (suc n) (e ∷ []) h = absurd (omega arith)
take-drop_last (suc n) (e ∷ f ∷ es) h = ap (◌∷◌ e) (take-drop_last n (f ∷ es) (omega arith))

take_all : (n : ℕ) (es : List TransactionHistoryEntry) → length es ≤ n → take n es ≡ es
take_all zero [] h = refl
take_all zero (e ∷ es) h = absurd (omega arith)
take_all (suc n) [] h = refl
take_all (suc n) (e ∷ es) h = ap (◌∷◌ e) (take_all n es (omega arith))

-- The loop ends within as many rounds as there are entries, and keeps the first `max` of them.
pub prune_loop-take :
    (fuel max : ℕ) (es : List TransactionHistoryEntry)
    → length es ≤ fuel + max
    → prune_loop fuel max es ≡ take max es
unfolding prune_loop
prune_loop-take zero max es h = sym (take_all max es (omega arith))
prune_loop-take (suc fuel) max [] h =
    let short : ltb max 0 ≡ false = ground arith in rw short (sym (take_all max [] (omega arith)))
prune_loop-take (suc fuel) max (e ∷ es) h = elim (Bool-cases (ltb max (length (e ∷ es)))) [
  | inl long ↦ rw long (
      prune_loop-take fuel max (drop_last (e ∷ es)) (omega (arith, length-drop_last e es))
      ∙ take-drop_last max (e ∷ es) (ground arith))
  | inr short ↦ rw short (sym (take_all max (e ∷ es) (ground arith)))
]

save_history_keeps :
    (env : Env) (dir : Directory) (s : Session) → (save_history env dir s).0.tm ≡ s.tm
unfolding save_history
save_history_keeps env dir s = ground arith

-- An added entry stands behind the loaded ones, and the first max_history_entries of all are
-- kept.
pub add_history_entry_lem :
    (env : Env) (dir : Directory) (entry : TransactionHistoryEntry) (s : Session)
    → (add_history_entry env dir entry s).0.tm.history
      ≡ take s.tm.config.max_history_entries ((load_history dir s).tm.history ++ entry ∷ [])
unfolding add_history_entry prune_history load_history
add_history_entry_lem env dir entry s =
    ap (λ (tm : TransactionManager). tm.history) (save_history_keeps env dir _)
    ∙ prune_loop-take _ s.tm.config.max_history_entries _ (omega arith)

take-append :
    (n : ℕ) (es fs : List TransactionHistoryEntry) → n ≤ length es → take n (es ++ fs) ≡ take n es
take-append zero es fs h = refl
take-append (suc n) [] fs h = absurd (omega arith)
take-append (suc n) (e ∷ es) fs h = ap (◌∷◌ e) (take-append n es fs (omega arith))

-- A full history is not changed by a new entry: it is the new entry that is pruned.
pub add_history_entry_full :
    (env : Env) (dir : Directory) (entry : TransactionHistoryEntry) (s : Session)
    → length (load_history dir s).tm.history ≡ s.tm.config.max_history_entries
    → (add_history_entry env dir entry s).0.tm.history ≡ (load_history dir s).tm.history
add_history_entry_full env dir entry s full =
    add_history_entry_lem env dir entry s
    ∙ take-append _ (load_history dir s).tm.history (entry ∷ []) (omega arith)
    ∙ take_all _ (load_history dir s).tm.history (omega arith)

-- A history with room left keeps all its entries and the new one.
pub add_history_entry_room :
    (env : Env) (dir : Directory) (entry : TransactionHistoryEntry) (s : Session)
    → length (load_history dir s).tm.history < s.tm.config.max_history_entries
    → (add_history_entry env dir entry s).0.tm.history
      ≡ (load_history dir s).tm.history ++ entry ∷ []
add_history_entry_room env dir entry s room =
    add_history_entry_lem env dir entry s
    ∙ take_all _ _ (omega (arith, length-append (load_history dir s).tm.history (entry ∷ [])))

abbrev pub entry_keys : List Text
entry_keys =
    codes "transaction_id"
    ∷ codes "version"
    ∷ codes "result"
    ∷ codes "started_at"
    ∷ codes "completed_at"
    ∷ codes "sha256"
    ∷ []

-- No text of the entry looks like a key of its file.
pub record IsStorableEntry (e : TransactionHistoryEntry) : Type 0 where
  pub transaction_id : IsFree entry_keys e.transaction_id
  pub version : IsFree entry_keys e.version
  pub result : IsFree entry_keys e.result
  pub started_at : IsFree entry_keys e.started_at
  pub completed_at : IsFree entry_keys e.completed_at
  pub sha256 : IsFree entry_keys e.sha256

module _ (e : TransactionHistoryEntry) (safe : IsStorableEntry e) where
  entry-AllNeutral :
      (key : Text)
      → is_name key ≡ true
      → known entry_keys key ≡ true
      → AllNeutral key (entry_fields e)
  entry-AllNeutral key named here = (
    escaped e.transaction_id safe.transaction_id,
    (
      escaped e.version safe.version,
      (
        escaped e.result safe.result,
        (
          escaped e.started_at safe.started_at,
          (escaped e.completed_at safe.completed_at, (escaped e.sha256 safe.sha256, tt)),
        ),
      ),
    ),
  )
    where
      escaped : (v : Text) → IsFree entry_keys v → IsNeutral key (quoted [] (escape_json_string v))
      escaped = escaped-IsNeutral entry_keys key named here

  read_text :
      (key v : Text)
      → is_name key ≡ true
      → known entry_keys key ≡ true
      → (n : Text) → find_field key (entry_fields e) ≡ some (quoted n (escape_json_string v))
      → extract_json_value (document (entry_fields e)) key ≡ v
  read_text key v named here n found =
      extract_escaped key named (entry_fields e) refl (entry-AllNeutral key named here) found

  -- The file of a history entry whose texts do not look like its keys is read back as the entry.
  pub read_entry-document : read_entry (document (entry_fields e)) ≡ e
  unfolding read_entry text_eq
  read_entry-document = λ i. record {
    transaction_id = read_text (codes "transaction_id") e.transaction_id refl refl _ refl i;
    version = read_text (codes "version") e.version refl refl _ refl i;
    result = read_text (codes "result") e.result refl refl _ refl i;
    started_at = read_text (codes "started_at") e.started_at refl refl _ refl i;
    completed_at = read_text (codes "completed_at") e.completed_at refl refl _ refl i;
    sha256 = read_text (codes "sha256") e.sha256 refl refl _ refl i;
  }
