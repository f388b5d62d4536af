-- ===== src/Lib.antt =====
-- The kernel of L5 Lunos: the Pirho compiler (src/sys/np), the memory it allocates, the initial
-- ramdisk, the virtual file system, the page frames, the page tables and the mappings on them, the
-- processes with their credentials and open files, the namespaces, the ready queue, and the string
-- library with its formatted text.
--
-- Pirho. `parse_work` of src/sys/np/core/np_parse.c takes tokens from `lex_nom` of np_lex.c, enters
-- strings into the symbol table of np_symbol.c, and pushes intermediate code on the queue of
-- src/sys/np/codegen/gen_piir.c. At the end of the input `piir_inject` of piir_engine.c empties the
-- queue, and `md_piir_decode` of src/sys/arch/amd64/np/piir_conv.c writes instructions.
--   Pirho/Chars, Pirho/Token   the character classes, the tokens and the keyword tables
--   Pirho/Lexer                the lexer: a function per function and per loop of np_lex.c, under its
--                              name; Lexer/Input is the input that is left, Lexer/Scan the
--                              specification, Lexer/Loops, Lexer/Refine, Lexer/Progress and
--                              Lexer/Results the proofs
--   Pirho/Symbol               np_symbol.c; Symbol/Cache holds the proofs
--   Pirho/Piir                 gen_piir.c; Piir/Fifo holds the proofs
--   Pirho/Conv                 piir_conv.c and piir_engine.c; Conv/Spec is the specification,
--                              Conv/Emit, Conv/Cases, Conv/Decode, Conv/Inject and Conv/Total
--                              the proofs
--   Pirho/Parser               the functions of np_parse.c up to `parse_proc`, in a monad of state and
--                              error results, with Parser/Return for `parse_return`; Pirho/Compile
--                              holds `parse_token` and `parse_work`, and Compile/Sound and
--                              Compile/Total the proofs
--   Pirho/Init                 np_init.c, from the ramdisk to the release of the memory; Init/Boot holds
--                              the proofs
-- Ramdisk. Omar/Header is the header that src/tools/omar/omar.c and src/sys/os/os_omar.c share,
-- Omar/Pack what `file_push` of the tool writes, and Omar/Initrd the kernel's reader; Omar/Layout,
-- Omar/RoundTrip and Omar/Read hold the proofs.
-- Virtual file system. Vfs/State is the state of all: the vnodes, the mountpoints and the nodes of the
-- file systems. Vfs/Vnode, Vfs/Path and Vfs/Ops are src/sys/os/vfs_subr.c, Vfs/Mount is vfs_mount.c with
-- the table of vfs_init.c, Vfs/Namei is vfs_namei.c, Vfs/Tmpfs is src/sys/fs/tmpfs.c with Tmpfs/Data for
-- reads and writes, Vfs/Devfs is src/sys/fs/devfs.c, and Vfs/Ramdisk the file system's part of
-- os_omar.c; Vfs/Buffer is `memcpy`. `namei` dispatches to the file systems' lookups through Vfs/Ops.
-- Path/Count, Tmpfs/Readback, Tmpfs/Rewrite, Tmpfs/Names, Tmpfs/Table, Namei/Tmp, Namei/Kmount and
-- Namei/Returns hold the proofs.
-- Memory. Vm/Frames is the bitmap of page frames, src/sys/vm/vm_seg.c, with Frames/Bits,
-- Frames/Search, Frames/Grant, Frames/Count, Frames/Restore and Frames/Size for its proofs.
-- Vm/Mmu is the page tables of src/sys/arch/amd64/cpu/mmu.c over these frames: Mmu/Translate is the
-- translation that the processor makes of them, and Mmu/Owned, Mmu/Walk and Mmu/Refine hold the proofs.
-- Vm/Map is src/sys/vm/vm_map.c over both, with Map/Pages, Map/Grants, Map/Region, Map/Mmap
-- and Map/Given for its proofs.
-- Mem/Kalloc is `kalloc` and `kfree` of src/sys/os/os_kalloc.c, and Mem/Ptrbox is
-- src/sys/lib/ptrbox.c, with Ptrbox/Balance for what is handed out and given back.
-- Processes. Proc/State is `struct proc` and the state of the system that the functions of processes
-- change: the queues, the frames and tables, and the heap. Proc/Ranges, Proc/Life, Proc/Spawn and
-- Proc/Env are src/sys/os/os_proc.c with src/sys/arch/amd64/os/os_proc.c;
-- Life/Numbers, Life/Unique and Spawn/Lookup hold the proofs. Proc/Copy is src/sys/os/os_systm.c, the
-- copies from and to the user, with Copy/Text for its proofs. Proc/Elf is the loader,
-- src/sys/os/os_elf64.c, with Elf/Segment and Elf/Program for its proofs. `proc_spawn` makes an address
-- space in Vm/Mmu, maps the stack by Vm/Map, and loads a program of the ramdisk by Proc/Elf, which maps
-- the segments by Vm/Map; `vm_map` records its ranges by Proc/Ranges.
-- Namespaces. Ns is src/sys/os/os_ns.c, with Ns/Lookup for its proofs, and Ns/Taps the I/O taps of
-- os_iotap.c, which are entered there, with Taps/Registry for the proofs.
-- Credentials. Cred is src/sys/os/os_ucred.c, with Cred/Confined for the proofs.
-- Files. Files/Filedes and Files/Io are src/sys/os/os_filedes.c; Files/Table, Files/Lookup, Files/Dup,
-- Io/Open and Io/Seek hold the proofs.
-- Scheduler. Sched is the ready queue of src/sys/os/os_sched.c, with Sched/Pick for its proofs;
-- Sched/Cores is `cpu_sched` there and `cpu_get` of src/sys/arch/amd64/cpu/cpu_mp.c.
-- Strings. In src/sys/lib/string, Str/Itoa is itoa.c, Str/Atoi is atoi.c, Str/Format is vsnprintf.c,
-- and Str/Compare is strcmp.c, strncmp.c and memcmp.c. Format/Expand is the text that a format stands
-- for; Itoa/Digits, Itoa/Reverse, Atoi/RoundTrip, Format/Output, Format/Truncate and Compare/Order hold
-- the proofs. The loops over the digits run on the value and one more as fuel, since each round divides
-- by the base.
-- Prelude holds what all share, and Tests the concrete inputs.
--
-- State. A function that changes an object takes its record and returns it. A pointer to a block is
-- its address, and NULL is `none`. What the compiler allocates is in the record `Mem`: the heap, and
-- the box that owns the compiler's blocks. A read of memory that was never written is a fault, and a
-- fault is `none` or `fault`, as the module says. Arguments that the callers never leave NULL have
-- no NULL case.
--
-- Fuel. The loops of the lexer and of the parser take a character each round, so `lex_fuel`, which is
-- the number of characters that are left and two more, is enough for each; the loop of the code
-- generator takes a byte each round, so the length of the queue and one more is enough. The headers of
-- an archive are 15 bytes at least, and the components of a path a byte, so the length of the image, or
-- of the path, and one more is enough for the loops over them. The loop over a format takes a byte each
-- round, so the length of the format and one more is enough.
--
-- Parameters. The allocator under `kalloc` is another project's library: its answers are the field
-- `grants` of the heap, of which nothing is assumed, except where a theorem says that no block is
-- handed out twice, or that every request is granted. What a read past an instruction's array gives
-- is the parameter `beyond`. The operation of a vnode that `fd_close` calls is the parameter
-- `vop_reclaim`; so are the other operations of a vnode, the path lookup, the console and the check
-- of a user's address, where the file calls use them. The value of a variable that `fd_dup` tests
-- unwritten is a parameter, too, and so is that of `stack_end` in `proc_check_addr`. The size of a
-- process is `sizeof_proc`. The memory of the user is a function from addresses to bytes. In the
-- virtual file system, `krealloc` is a parameter, with what the manual says of `realloc` as its
-- hypothesis; so are the drivers' `read`, and the bytes that stand behind a name that was copied
-- without its NUL. The image of the ramdisk comes from the boot loader, and what the tool reads of
-- the host's files is the record `HostFile`.
--
-- Not modelled: printing, but for the read through NULL where the parser prints a string's name, and locks; `initrd_init`, which asks the boot loader for the image; the
-- tool's walk over the host's directories; what the frames hold, but for page tables and what the
-- loader copies, and the control registers of the processor; the switch between processes, and
-- signals; the system calls' tables, sockets and multiplexed taps; drivers, interrupts and processor
-- setup; the user programs and the C library.
pub mod Prelude
pub mod Str
pub mod Mem
pub mod Pirho
pub mod Files
pub mod Proc
pub mod Sched
pub mod Vm
pub mod Omar
pub mod Vfs
pub mod Ns
pub mod Cred
mod Tests
