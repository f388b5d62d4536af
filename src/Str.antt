-- ===== src/Str.antt =====
-- The kernel's string library, src/sys/lib/string.
pub mod Itoa
pub mod Atoi
pub mod Format
pub mod Compare
