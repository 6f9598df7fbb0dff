-- ===== src/Transaction/Phases.antt =====
-- The order of the phases of a transaction.
use embedded_linux_ota.Prelude.{
  true, List, [], ◌∷◌, ◌++◌, ◌≡◌, ◌↔◌, ◌⊎◌, refl, arith, ap, ◌∙◌, drop, Bool-cases, inl, inr,
}
use embedded_linux_ota.Text.{Text}
use embedded_linux_ota.Transaction.State.{
  TransactionState, idle, checking, update_available, downloading, downloaded, verifying, verified,
  installing, installed, failed, can_transition, string_to_transaction_state,
  transaction_state_to_string, Notice, StateMachine, transition_to, is_active, new_machine,
  set_transition_callback,
}

-- The ten names are read back as the states that they were printed for.
pub string_to_state-to_string :
    (s : TransactionState) → string_to_transaction_state (transaction_state_to_string s) ≡ s
unfolding string_to_transaction_state
string_to_state-to_string idle = refl
string_to_state-to_string _ = refl

-- The diagram of docs/transaction-management.md.
infix 40 ◌⟶◌
pub data ◌⟶◌ : TransactionState → TransactionState → Type 0 where
  check : idle ⟶ checking
  offer : checking ⟶ update_available
  none_offered : checking ⟶ idle
  start : update_available ⟶ downloading
  decline : update_available ⟶ idle
  fetched : downloading ⟶ downloaded
  verify : downloaded ⟶ verifying
  pass : verifying ⟶ verified
  install : verified ⟶ installing
  finish : installing ⟶ installed
  settle : installed ⟶ idle
  recover : failed ⟶ idle
  fail_check : checking ⟶ failed
  fail_offer : update_available ⟶ failed
  fail_download : downloading ⟶ failed
  fail_downloaded : downloaded ⟶ failed
  fail_verify : verifying ⟶ failed
  fail_verified : verified ⟶ failed
  fail_install : installing ⟶ failed

ruleset edges = (
  check, offer, none_offered, start, decline, fetched, verify, pass, install, finish, settle,
  recover,
)

ruleset failures = (
  fail_check, fail_offer, fail_download, fail_downloaded, fail_verify, fail_verified, fail_install,
)

pub of_edge : {s t : TransactionState} → s ⟶ t → can_transition s t ≡ true
unfolding can_transition
of_edge check = refl
of_edge _ = refl

pub to_edge : (s t : TransactionState) → can_transition s t ≡ true → s ⟶ t
unfolding can_transition
to_edge idle t h = grind (arith, edges, failures)
to_edge s t h = grind (arith, edges, failures)

-- The transition table allows a step from one state to another exactly when the diagram of
-- docs/transaction-management.md has that edge.
pub can_transition_iff : (s t : TransactionState) → (can_transition s t ≡ true) ↔ (s ⟶ t)
can_transition_iff s t = (to_edge s t, of_edge)

-- A state is active exactly when a failure can be recorded in it.
pub is_active-can_fail : (sm : StateMachine) → is_active sm ≡ can_transition sm.current_state failed
unfolding can_transition
is_active-can_fail sm = ground arith

abbrev pub Step : Type 0
Step = TransactionState × TransactionState

-- The way from `idle` to `installed`, the latest step first.
abbrev pub whole_way : List Step
whole_way =
    (installing, installed)
    ∷ (verified, installing)
    ∷ (verifying, verified)
    ∷ (downloaded, verifying)
    ∷ (downloading, downloaded)
    ∷ (update_available, downloading)
    ∷ (checking, update_available)
    ∷ (idle, checking)
    ∷ []

-- The steps from `idle` to a phase. A failure and a return to `idle` need none.
abbrev pub chain : TransactionState → List Step
chain idle = []
chain failed = []
chain checking = drop 7 whole_way
chain update_available = drop 6 whole_way
chain downloading = drop 5 whole_way
chain downloaded = drop 4 whole_way
chain verifying = drop 3 whole_way
chain verified = drop 2 whole_way
chain installing = drop 1 whole_way
chain installed = whole_way

abbrev pub steps : List Notice → List Step
steps [] = []
steps (n ∷ ns) = (n.from, n.to) ∷ steps ns

-- Requests made of the machine one after the other, refused ones included.
abbrev pub request_all : StateMachine → List (TransactionState × Text) → StateMachine
request_all sm [] = sm
request_all sm ((s, id) ∷ rs) = request_all (transition_to sm s id).0 rs

-- The callback has seen the whole way to the present state.
pub record IsChained (sm : StateMachine) : Type 0 where
  pub listening : sm.has_callback ≡ true
  pub before : List Step
  pub trail : steps sm.notices ≡ chain sm.current_state ++ before

chain_step : {s t : TransactionState} → s ⟶ t → (chain t ≡ []) ⊎ (chain t ≡ (s, t) ∷ chain s)
chain_step check = inr refl
chain_step offer = inr refl
chain_step start = inr refl
chain_step fetched = inr refl
chain_step verify = inr refl
chain_step pass = inr refl
chain_step install = inr refl
chain_step finish = inr refl
chain_step _ = inl refl

transition_to-IsChained :
    (sm : StateMachine) (t : TransactionState) (id : Text)
    → IsChained sm
    → IsChained (transition_to sm t id).0
unfolding transition_to
transition_to-IsChained sm t id c = elim (Bool-cases (can_transition sm.current_state t)) [
  | inl allowed ↦ rw allowed (
      rw c.listening (elim (chain_step (to_edge sm.current_state t allowed)) [
        | inl fresh ↦ record {
          listening = refl;
          before = (sm.current_state, t) ∷ steps sm.notices;
          trail = rw fresh refl;
        }
        | inr longer ↦ record {
          listening = refl;
          before = c.before;
          trail = rw longer (ap (◌∷◌ (sm.current_state, t)) c.trail);
        }
      ]))
  | inr refused ↦ rw refused c
]

-- Whatever is requested of a machine that is chained, it stays so: the last steps that the callback
-- saw are the whole way from `idle` to the present phase, in order and with none left out.
pub request_all-IsChained :
    (rs : List (TransactionState × Text)) (sm : StateMachine)
    → IsChained sm
    → IsChained (request_all sm rs)
request_all-IsChained [] sm c = c
request_all-IsChained ((s, id) ∷ rs) sm c =
    request_all-IsChained rs (transition_to sm s id).0 (transition_to-IsChained sm s id c)

-- A new state machine with a callback that is in INSTALLED after any requests, refused ones
-- included, was in its last eight steps checked, offered, downloaded, verified and installed, in
-- this order.
pub installed_trail :
    (rs : List (TransactionState × Text))
    → (request_all (set_transition_callback new_machine) rs).current_state ≡ installed
    → (before : List Step) × (steps (request_all (set_transition_callback new_machine) rs).notices
        ≡ whole_way ++ before)
installed_trail rs e =
    let c =
      request_all-IsChained rs (set_transition_callback new_machine)
        (record { listening = refl; before = []; trail = refl }) in
    (c.before, c.trail ∙ ap (λ s. chain s ++ c.before) e)
