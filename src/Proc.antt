-- ===== src/Proc.antt =====
-- Processes: src/sys/os/os_proc.c and os_systm.c, and src/sys/arch/amd64/os/os_proc.c.
pub mod Ranges
pub mod Copy
pub mod State
pub mod Life
pub mod Spawn
pub mod Env
pub mod Elf
