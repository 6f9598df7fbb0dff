-- ===== src/Transaction.antt =====
-- The OTA transaction: its state machine (src/transaction/transaction_state_machine.cpp) and its
-- manager (src/transaction/transaction_manager.cpp).
pub mod State
pub mod Phases
pub mod Manager
pub mod Persist
pub mod Recovery
pub mod Interruption
pub mod Lifecycle
pub mod Along
pub mod Pruning
pub mod Tests
