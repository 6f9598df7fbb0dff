-- ===== src/Transaction/Persist.antt =====
-- `transaction.json` is read back as it was written.
use embedded_linux_ota.Prelude.{◌<◌, true, false, List, [], ◌∷◌, some, ◌≡◌, refl, ap, ◌∙◌, get_or}
use embedded_linux_ota.Text.{Text, codes, text_eq, take_until}
use embedded_linux_ota.Text.Decimal.{int_limit, stoi, stoi-int_to_string}
use embedded_linux_ota.Json.{escape_json_string, extract_json_value}
use embedded_linux_ota.Json.Document.{quoted, document, is_name}
use embedded_linux_ota.Json.Lookup.{IsNeutral, AllNeutral, find_field, extract_bare}
use embedded_linux_ota.Json.Number.{lacks_quote-int, value_at-int}
use embedded_linux_ota.Text.Search.{lacks}
use embedded_linux_ota.Json.Strings.{
  known, IsFree, escaped-IsNeutral, plain-IsNeutral, extract_escaped,
}
use embedded_linux_ota.Transaction.State.{
  TransactionState, idle, transaction_state_to_string, string_to_transaction_state,
}
use embedded_linux_ota.Transaction.Phases.{string_to_state-to_string}
use embedded_linux_ota.Transaction.Manager.{TransactionRecord, transaction_fields, read_transaction}

abbrev pub transaction_keys : List Text
transaction_keys =
    codes "transaction_id"
    ∷ codes "state"
    ∷ codes "target_version"
    ∷ codes "source_version"
    ∷ codes "hardware_version"
    ∷ codes "download_path"
    ∷ codes "installation_target"
    ∷ codes "sha256"
    ∷ codes "error_code"
    ∷ codes "error_message"
    ∷ codes "started_at"
    ∷ codes "updated_at"
    ∷ codes "owner_pid"
    ∷ codes "active_slot"
    ∷ codes "target_slot"
    ∷ []

-- No text of the record looks like a key of the file, and the owner's pid is not negative.
pub record IsStorable (r : TransactionRecord) : Type 0 where
  pub transaction_id : IsFree transaction_keys r.transaction_id
  pub target_version : IsFree transaction_keys r.target_version
  pub source_version : IsFree transaction_keys r.source_version
  pub hardware_version : IsFree transaction_keys r.hardware_version
  pub download_path : IsFree transaction_keys r.download_path
  pub installation_target : IsFree transaction_keys r.installation_target
  pub sha256 : IsFree transaction_keys r.sha256
  pub error_code : IsFree transaction_keys r.error_code
  pub error_message : IsFree transaction_keys r.error_message
  pub started_at : IsFree transaction_keys r.started_at
  pub updated_at : IsFree transaction_keys r.updated_at
  pub owner_pid : r.owner_pid < int_limit
  pub active_slot : IsFree transaction_keys r.active_slot
  pub target_slot : IsFree transaction_keys r.target_slot

state_name_free :
    (s : TransactionState) → known transaction_keys (transaction_state_to_string s) ≡ false
unfolding text_eq
state_name_free idle = refl
state_name_free _ = refl

state_name_lacks : (s : TransactionState) → lacks b'"' (transaction_state_to_string s) ≡ true
state_name_lacks idle = refl
state_name_lacks _ = refl

state_name_escaped :
    (s : TransactionState)
    → escape_json_string (transaction_state_to_string s) ≡ transaction_state_to_string s
unfolding escape_json_string
state_name_escaped idle = refl
state_name_escaped _ = refl

module _ (r : TransactionRecord) (safe : IsStorable r) where
  fields-AllNeutral :
      (key : Text)
      → is_name key ≡ true
      → known transaction_keys key ≡ true
      → AllNeutral key (transaction_fields r)
  fields-AllNeutral key named here = (
    escaped r.transaction_id safe.transaction_id,
    (
      plain (transaction_state_to_string r.state) (state_name_lacks r.state)
          (state_name_free r.state),
      (
        escaped r.target_version safe.target_version,
        (
          escaped r.source_version safe.source_version,
          (
            escaped r.hardware_version safe.hardware_version,
            (
              escaped r.download_path safe.download_path,
              (
                escaped r.installation_target safe.installation_target,
                (
                  escaped r.sha256 safe.sha256,
                  (
                    escaped r.error_code safe.error_code,
                    (
                      escaped r.error_message safe.error_message,
                      (
                        escaped r.started_at safe.started_at,
                        (
                          escaped r.updated_at safe.updated_at,
                          (
                            lacks_quote-int r.owner_pid safe.owner_pid,
                            (
                              escaped r.active_slot safe.active_slot,
                              (escaped r.target_slot safe.target_slot, tt),
                            ),
                          ),
                        ),
                      ),
                    ),
                  ),
                ),
              ),
            ),
          ),
        ),
      ),
    ),
  )
    where
      escaped :
          (v : Text) → IsFree transaction_keys v → IsNeutral key (quoted [] (escape_json_string v))
      escaped = escaped-IsNeutral transaction_keys key named here

      plain :
          (v : Text)
          → lacks b'"' v ≡ true
          → known transaction_keys v ≡ false
          → IsNeutral key (quoted [] v)
      plain = plain-IsNeutral transaction_keys key named here

  read_text :
      (key v : Text)
      → is_name key ≡ true
      → known transaction_keys key ≡ true
      → (n : Text) → find_field key (transaction_fields r) ≡ some (quoted n (escape_json_string v))
      → extract_json_value (document (transaction_fields r)) key ≡ v
  read_text key v named here n found =
      extract_escaped key named (transaction_fields r) refl (fields-AllNeutral key named here) found

  pub read_state_name :
      extract_json_value (document (transaction_fields r)) (codes "state")
      ≡ transaction_state_to_string r.state
  unfolding text_eq
  read_state_name =
      read_text (codes "state") (transaction_state_to_string r.state) refl refl (codes "state")
        (rw (state_name_escaped r.state))

  read_state :
      string_to_transaction_state
        (extract_json_value (document (transaction_fields r)) (codes "state"))
      ≡ r.state
  read_state = ap string_to_transaction_state read_state_name ∙ string_to_state-to_string r.state

  read_pid :
      get_or 0 (stoi (extract_json_value (document (transaction_fields r)) (codes "owner_pid")))
      ≡ r.owner_pid
  unfolding text_eq extract_json_value take_until
  read_pid =
      ap (λ t. get_or 0 (stoi t))
        (extract_bare (codes "owner_pid") refl _ (transaction_fields r) {n = codes "owner_pid"} refl
            (fields-AllNeutral (codes "owner_pid") refl refl) refl
          ∙ value_at-int _ r.owner_pid _ safe.owner_pid)
      ∙ ap (get_or 0) (stoi-int_to_string r.owner_pid [] safe.owner_pid tt)

  -- The document of a record is read back as the record, whatever bytes its texts hold, as long
  -- as none looks like a key of the file and the pid is not negative.
  pub read_transaction-document : read_transaction (document (transaction_fields r)) ≡ r
  unfolding read_transaction text_eq
  read_transaction-document = λ i. record {
    transaction_id =
        read_text (codes "transaction_id") r.transaction_id refl refl (codes "transaction_id") refl
          i;
    state = read_state i;
    target_version =
        read_text (codes "target_version") r.target_version refl refl (codes "target_version") refl
          i;
    source_version =
        read_text (codes "source_version") r.source_version refl refl (codes "source_version") refl
          i;
    hardware_version =
        read_text (codes "hardware_version") r.hardware_version refl refl (codes "hardware_version")
          refl i;
    download_path =
        read_text (codes "download_path") r.download_path refl refl (codes "download_path") refl i;
    installation_target =
        read_text (codes "installation_target") r.installation_target refl refl
          (codes "installation_target") refl i;
    sha256 = read_text (codes "sha256") r.sha256 refl refl (codes "sha256") refl i;
    error_code = read_text (codes "error_code") r.error_code refl refl (codes "error_code") refl i;
    error_message =
        read_text (codes "error_message") r.error_message refl refl (codes "error_message") refl i;
    started_at = read_text (codes "started_at") r.started_at refl refl (codes "started_at") refl i;
    updated_at = read_text (codes "updated_at") r.updated_at refl refl (codes "updated_at") refl i;
    owner_pid = read_pid i;
    active_slot =
        read_text (codes "active_slot") r.active_slot refl refl (codes "active_slot") refl i;
    target_slot =
        read_text (codes "target_slot") r.target_slot refl refl (codes "target_slot") refl i;
  }
