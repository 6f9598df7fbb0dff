-- ===== src/Slot.antt =====
-- The two slots of the system and their manager (include/slot/slot_manager.h,
-- src/slot/slot_manager.cpp).
pub mod State
pub mod Manager
pub mod Switch
pub mod Persist
pub mod Unwritten
pub mod Tests
