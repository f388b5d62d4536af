-- ===== src/Omar.antt =====
-- The OMAR archive format: src/tools/omar/omar.c writes it, and src/sys/os/os_omar.c reads it.
pub mod Header
pub mod Pack
pub mod Initrd
pub mod Layout
pub mod RoundTrip
pub mod Read
