-- ===== src/Sdk.antt =====
-- The freestanding C library of the kernel, sdk/string.
pub mod Itoa
pub mod Memory
pub mod Str
pub mod Vsnprintf
