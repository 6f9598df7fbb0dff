-- ===== src/Boot.antt =====
-- The simulated bootloader and the boot control above it (include/boot, src/boot).
pub mod Bootloader
pub mod Interface
pub mod Control
pub mod Tests
