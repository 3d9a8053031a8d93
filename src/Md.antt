-- ===== src/Md.antt =====
-- The descriptor tables of the processor, sys/hive/arch/amd64/cpu.
pub mod Idt
pub mod Tss
