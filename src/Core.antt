-- ===== src/Core.antt =====
-- The kernel core, sys/hive/core.
pub mod Bpt
pub mod Elfload
pub mod Initrd
pub mod Spinlock
pub mod Timer
pub mod Trace
