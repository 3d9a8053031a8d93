-- ===== src/Ob.antt =====
-- The object store, sys/hive/ob.
pub mod Heap
pub mod Path
pub mod Store
