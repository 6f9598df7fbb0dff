-- ===== src/Transaction/State.antt =====
-- `TransactionState` and `TransactionStateMachine`
-- (include/transaction/transaction_state_machine.h, src/transaction/transaction_state_machine.cpp).
-- Log output is left out; the calls of the callback are kept, the latest first.
use embedded_linux_ota.Prelude.{
  ℕ, Bool, true, false, not, ◌&&◌, ◌||◌, List, [], ◌∷◌, ◌==◌, if◌then◌else◌,
}
use embedded_linux_ota.Text.{Text, codes, text_eq}

pub data TransactionState : Type 0 where
  idle checking update_available downloading downloaded : TransactionState
  verifying verified installing installed failed : TransactionState

-- The enumerators' values, by which C++ compares them.
abbrev pub state_code : TransactionState → ℕ
state_code idle = 0
state_code checking = 1
state_code update_available = 2
state_code downloading = 3
state_code downloaded = 4
state_code verifying = 5
state_code verified = 6
state_code installing = 7
state_code installed = 8
state_code failed = 9

abbrev pub state_eq : TransactionState → TransactionState → Bool
state_eq a b = state_code a == state_code b

abbrev pub valid_transitions : TransactionState → List TransactionState
valid_transitions idle = checking ∷ []
valid_transitions checking = update_available ∷ idle ∷ failed ∷ []
valid_transitions update_available = downloading ∷ idle ∷ failed ∷ []
valid_transitions downloading = downloaded ∷ failed ∷ []
valid_transitions downloaded = verifying ∷ failed ∷ []
valid_transitions verifying = verified ∷ failed ∷ []
valid_transitions verified = installing ∷ failed ∷ []
valid_transitions installing = installed ∷ failed ∷ []
valid_transitions installed = idle ∷ []
valid_transitions failed = idle ∷ []

abbrev pub transaction_state_to_string : TransactionState → Text
transaction_state_to_string idle = codes "IDLE"
transaction_state_to_string checking = codes "CHECKING"
transaction_state_to_string update_available = codes "UPDATE_AVAILABLE"
transaction_state_to_string downloading = codes "DOWNLOADING"
transaction_state_to_string downloaded = codes "DOWNLOADED"
transaction_state_to_string verifying = codes "VERIFYING"
transaction_state_to_string verified = codes "VERIFIED"
transaction_state_to_string installing = codes "INSTALLING"
transaction_state_to_string installed = codes "INSTALLED"
transaction_state_to_string failed = codes "FAILED"

unfoldable pub string_to_transaction_state : Text → TransactionState
unfolding text_eq
string_to_transaction_state str =
    if text_eq str (codes "IDLE")
    then idle
    else if text_eq str (codes "CHECKING")
    then checking
    else if text_eq str (codes "UPDATE_AVAILABLE")
    then update_available
    else if text_eq str (codes "DOWNLOADING")
    then downloading
    else if text_eq str (codes "DOWNLOADED")
    then downloaded
    else if text_eq str (codes "VERIFYING")
    then verifying
    else if text_eq str (codes "VERIFIED")
    then verified
    else if text_eq str (codes "INSTALLING")
    then installing
    else if text_eq str (codes "INSTALLED")
    then installed
    else if text_eq str (codes "FAILED")
    then failed
    else idle

-- `set::find` on the targets of a state.
member : TransactionState → List TransactionState → Bool
member s [] = false
member s (t ∷ ts) = state_eq s t || member s ts

-- The table has a row for every state, so the lookup of the row never fails.
unfoldable pub can_transition : TransactionState → TransactionState → Bool
unfolding member
can_transition from to = member to (valid_transitions from)

-- A call of the transition callback.
pub record Notice : Type 0 where
  pub from : TransactionState
  pub to : TransactionState
  pub transaction_id : Text

pub record StateMachine : Type 0 where
  pub current_state : TransactionState
  pub has_callback : Bool
  pub notices : List Notice

abbrev pub new_machine : StateMachine
new_machine = record { current_state = idle; has_callback = false; notices = [] }

abbrev pub set_transition_callback : StateMachine → StateMachine
set_transition_callback sm = record sm { has_callback = true }

-- `log_transition`, less the log lines.
abbrev pub log_transition : StateMachine → TransactionState → TransactionState → Text → StateMachine
log_transition sm from to id =
    let call : Notice = record { from = from; to = to; transaction_id = id } in
    if sm.has_callback then record sm { notices = call ∷ sm.notices } else sm

unfoldable pub transition_to : StateMachine → TransactionState → Text → StateMachine × Bool
unfolding can_transition
transition_to sm new_state id =
    if not (can_transition sm.current_state new_state) then (sm, false) else (
      log_transition (record sm { current_state = new_state }) sm.current_state new_state id,
      true,
    )

unfoldable pub set_state : StateMachine → TransactionState → Text → StateMachine
set_state sm state id =
    log_transition (record sm { current_state = state }) sm.current_state state id

abbrev pub reset : StateMachine → StateMachine
reset sm = record sm { current_state = idle }

abbrev pub is_active : StateMachine → Bool
is_active sm =
    not (state_eq sm.current_state idle)
    && not (state_eq sm.current_state installed)
    && not (state_eq sm.current_state failed)

abbrev pub is_terminal : StateMachine → Bool
is_terminal sm =
    state_eq sm.current_state installed
    || state_eq sm.current_state failed
    || state_eq sm.current_state idle

abbrev pub is_failure : StateMachine → Bool
is_failure sm = state_eq sm.current_state failed
