-- ===== src/Files.antt =====
-- The file descriptors of a process: src/sys/os/os_filedes.c.
pub mod Filedes
pub mod Table
pub mod Lookup
pub mod Io
pub mod Dup
