-- ===== src/Gen.antt =====
-- The host tools, gen/.
pub mod Memar
