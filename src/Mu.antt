-- ===== src/Mu.antt =====
-- The machine-dependent layer, sys/hive/arch/amd64.
pub mod Pmap
