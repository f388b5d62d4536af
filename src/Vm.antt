-- ===== src/Vm.antt =====
-- Memory management of the kernel: src/sys/vm, and src/sys/arch/amd64/cpu/mmu.c.
pub mod Frames
pub mod Mmu
pub mod Map
