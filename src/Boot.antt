-- ===== src/Boot.antt =====
-- The lines the boot loader prints before it has drivers: kernel/core/src/boot_diag.rs,
-- kernel/core/src/boot_identity.rs and the clock of kernel/boot/src/rtc.rs.
pub mod Writer
pub mod Status
pub mod Identity
pub mod Clock
pub mod Axes
pub mod Lines
