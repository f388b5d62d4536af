-- ===== src/Mem.antt =====
-- Dynamic memory of the kernel: src/sys/os/os_kalloc.c over the TLSF allocator
-- (src/sys/vm/vm_tlsf.c, which is another project's library), and the pointer boxes of
-- src/sys/lib/ptrbox.c.
pub mod Kalloc
pub mod Ptrbox
