-- ===== src/Acpi.antt =====
-- ACPI.
pub mod Madt
pub mod Tables
