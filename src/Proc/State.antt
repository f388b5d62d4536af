-- ===== src/Proc/State.antt =====
-- `struct proc` of src/sys/include/sys/proc.h, and the system-wide state that src/sys/os/os_proc.c changes.
use l5lunos.Prelude.{
  ℕ, Bool, false, Option, none, some, List, [], ◌==◌, if◌then◌else◌, Bytes, replicate,
}
use l5lunos.Mem.Kalloc.{Heap}
use l5lunos.Mem.Ptrbox.{Ptrbox}
use l5lunos.Files.Filedes.{FdTab, fd_max}
use l5lunos.Cred.{Ucred}
use l5lunos.Sched.Cores.{Cores}
use l5lunos.Vm.Mmu.{Mmu}
use l5lunos.Vm.Map.{Space}
use l5lunos.Proc.Ranges.{VmRange}

-- `struct penv_blk` in the kernel: its own address, the block of `argv`, and the arguments; an argument
-- is `none` where its copy could not be allocated.
pub record Penv : Type 0 where
  pub self : ℕ
  pub argv : ℕ
  pub args : List (Option Bytes)

-- `struct proc`, with its own address; `cr3` and `rip` are those of the process control block. The
-- flags are PROC_EXITING, PROC_SLEEPING and PROC_KTD.
pub record Process : Type 0 where
  pub self : ℕ
  pub pid : ℕ
  pub exiting : Bool
  pub sleeping : Bool
  pub ktd : Bool
  pub cr3 : ℕ
  pub rip : ℕ
  pub fdtab : FdTab
  pub envblk : Option Penv
  pub envblk_box : Option Ptrbox
  pub parent : Option ℕ
  pub cred : Ucred
  pub maplist : List VmRange

-- A `struct sched_queue` of addresses.
pub record RunQueue : Type 0 where
  pub q : List ℕ
  pub nproc : ℕ

-- The processes by their addresses, the variables of os_proc.c, the cores with their queues, and the
-- process that runs; `copies` is what was copied to physical addresses.
pub record Procs : Type 0 where
  pub mmu : Mmu
  pub copies : List (ℕ × Bytes)
  pub heap : Heap
  pub refs : ℕ → ℕ
  pub store : ℕ → Option Process
  pub procq : List ℕ
  pub is_procq_init : Bool
  pub next_pid : ℕ
  pub cores : Cores
  pub rr_id : ℕ
  pub scq : ℕ → RunQueue
  pub current : Option ℕ

-- `memset(procp, 0, sizeof(*procp))` and TAILQ_INIT of the ranges.
abbrev pub zero_proc : ℕ → Process
zero_proc a = record {
  self = a;
  pid = 0;
  exiting = false;
  sleeping = false;
  ktd = false;
  cr3 = 0;
  rip = 0;
  fdtab = replicate fd_max none;
  envblk = none;
  envblk_box = none;
  parent = none;
  cred = record { ruid = 0; euid = 0; suid = 0 };
  maplist = [];
}

-- A write of a process to its place.
unfoldable pub put_proc : ℕ → Process → Procs → Procs
put_proc a p s = record s { store = λ b. if b == a then some p else s.store b }

abbrev pub changed : (Process → Process) → Option Process → Option Process
changed f none = none
changed f (some p) = some (f p)

-- A change of the process at an address.
unfoldable pub change_proc : ℕ → (Process → Process) → Procs → Procs
change_proc a f s = record s { store = λ b. if b == a then changed f (s.store b) else s.store b }

abbrev pub ranges_at : (ℕ → Option Process) → Option ℕ → Option (List VmRange)
ranges_at store none = none
ranges_at store (some a) = elim (store a) [ none ↦ none | some p ↦ some p.maplist ]

-- What `vm_map` works on: the ranges are those of the process that runs.
abbrev pub space_of : Procs → Space
space_of s = record { mmu = s.mmu; heap = s.heap; self = ranges_at s.store s.current }

abbrev pub put_ranges : Option ℕ → Option (List VmRange) → Procs → Procs
put_ranges none r s = s
put_ranges (some a) none s = s
put_ranges (some a) (some r) s = change_proc a (λ p. record p { maplist = r }) s

unfoldable pub put_space : Space → Procs → Procs
unfolding change_proc
put_space sp s = put_ranges s.current sp.self (record s { mmu = sp.mmu; heap = sp.heap })
