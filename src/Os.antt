-- ===== src/Os.antt =====
-- System services of the kernel, sys/hive/os.
pub mod Pool
