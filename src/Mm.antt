-- ===== src/Mm.antt =====
-- Memory management of the kernel, sys/hive/mm.
pub mod Allocator
pub mod Bitmap
pub mod Pmem
pub mod Vmem
