-- ===== src/Proc/Life.antt =====
-- The life of a process: src/sys/os/os_proc.c, with the functions of src/sys/arch/amd64/os/os_proc.c that
-- it calls. A process that is given is there, where the callers see to that.
pub mod Unique
pub mod Numbers
use l5lunos.Prelude.{
  ℕ, ◌+◌, ◌-◌, ◌*◌, ◌/◌, ◌%◌, ◌^◌, Bool, true, false, Option, none, some, List, [], ◌∷◌, ◌++◌, ◌==◌,
  if◌then◌else◌, Bytes, length, get_elem?, replicate,
}
use l5lunos.Prelude.Errno.{Ret, ok, err, fail, einval, eio, enomem, esrch}
use l5lunos.Mem.Kalloc.{Heap, kalloc, kfree}
use l5lunos.Mem.Ptrbox.{Ptrbox, ptrbox_terminate}
use l5lunos.Files.Filedes.{Files, fdtab_init}
use l5lunos.Cred.{Ucred, ucred_init}
use l5lunos.Sched.Cores.{cpu_sched}
use l5lunos.Vm.Frames.{Frames, Outcome, done, fault, panicked, pagesize, vm_free_frame}
use l5lunos.Vm.Mmu.{Mmu, on_done, mmu_new_vas, mmu_free_vas}
use l5lunos.Vm.Map.{MmuMap, Space, vm_map}
use l5lunos.Proc.Ranges.{VmRange, proc_clear_ranges}
use l5lunos.Proc.Copy.{stack_top, stack_len, Memory, copyoutstr, copyout}
use l5lunos.Proc.State.{
  Penv, Process, RunQueue, Procs, zero_proc, put_proc, change_proc, space_of, put_space,
}

-- What the functions depend on: the kernel's root of tables, sizeof(struct proc), the values that
-- `fd_dup` tests unwritten, and the image of the ramdisk.
pub record Platform : Type 0 where
  pub kcr3 : ℕ
  pub sizeof_proc : ℕ
  pub nul : Bool
  pub nul' : Bool
  pub root : Bytes

abbrev pub lookup_at : ℕ → ℕ → Option Process → Option ℕ → Option ℕ
lookup_at a pid none rest = rest
lookup_at a pid (some p) rest = if p.pid == pid then some a else rest

-- The loop of `proc_lookup`, which gives the address.
unfoldable pub lookup_in : (ℕ → Option Process) → List ℕ → ℕ → Option ℕ
lookup_in store [] pid = none
lookup_in store (a ∷ q) pid = lookup_at a pid (store a) (lookup_in store q pid)

unfoldable pub proc_lookup : ℕ → Procs → Option ℕ
proc_lookup pid s = lookup_in s.store s.procq pid

-- The core and `rr_id` behind a choice of a core.
abbrev pub sched_core : Procs → Option ℕ × Procs
sched_core s = let (core, rr) = cpu_sched s.cores s.rr_id in (core, record s { rr_id = rr })

-- `sched_enq`, of the queue of a core.
unfoldable pub enq_proc : ℕ → ℕ → Procs → Procs
enq_proc core a s = record s {
  scq = λ c.
      if c == core
      then record { q = (s.scq c).q ++ a ∷ []; nproc = (s.scq c).nproc + 1 }
      else s.scq c;
}

-- The wait for the timer has no counterpart here.
unfoldable pub proc_sleep : Option ℕ → Procs → Ret (Unit {0}) × Procs
proc_sleep none s = (err einval, s)
proc_sleep (some a) s = (ok tt, change_proc a (λ p. record p { sleeping = true }) s)

abbrev pub wake_found : ℕ → Option Process → Procs → Ret (Unit {0}) × Procs
wake_found a none s = (err fail, s)
wake_found a (some p) s =
    if p.sleeping
    then (ok tt, change_proc a (λ r. record r { sleeping = false }) s)
    else (err fail, s)

abbrev pub wake_on : Option ℕ → ℕ → Procs → Ret (Unit {0}) × Procs
wake_on none a s = (err fail, s)
wake_on (some core) a s = wake_found a (s.store a) s

-- A core is chosen, though it is not used.
unfoldable pub proc_wake : ℕ → Procs → Ret (Unit {0}) × Procs
proc_wake a s = let (core, s') = sched_core s in wake_on core a s'

-- `spec` of the stack of a process.
abbrev pub stack_spec : MmuMap
stack_spec = record { va = stack_top; pa = 0 }

-- PROT_READ, PROT_WRITE and PROT_USER
abbrev pub stack_prot : ℕ
stack_prot = 11

-- `md_proc_init`: the result of `vm_map` is not looked at, and the range of the stack is recorded for
-- the process that runs.
abbrev pub map_stack : ℕ → Bool → Procs → ℕ × Mmu → Outcome (Ret (Unit {0}) × Procs)
map_stack a ktd s (cr3, m) =
    let s' = change_proc a (λ p. record p { cr3 = cr3; ktd = ktd }) (record s { mmu = m }) in
    on_done (vm_map cr3 stack_spec stack_len stack_prot (space_of s'))
      λ (r, spec, sp). done (ok tt, put_space sp s')

unfoldable pub md_proc_init : ℕ → ℕ → Bool → Procs → Outcome (Ret (Unit {0}) × Procs)
md_proc_init kcr3 a ktd s = on_done (mmu_new_vas kcr3 s.mmu) (map_stack a ktd s)

abbrev pub put_files :
    ℕ → Procs → Option (Ret (Unit {0}) × Files) → Outcome (Ret (Unit {0}) × Procs)
put_files a s none = fault
put_files a s (some (r, f)) = done (
  r,
  change_proc a (λ p. record p { fdtab = f.fdtab }) (record s { heap = f.heap; refs = f.refs }),
)

abbrev pub with_fdtab : Platform → ℕ → Ret (Unit {0}) × Procs → Outcome (Ret (Unit {0}) × Procs)
with_fdtab pf a (err e, s) = done (err e, s)
with_fdtab pf a (ok z, s) = put_files a s (
    fdtab_init pf.nul pf.nul'
      (record { fdtab = (zero_proc a).fdtab; heap = s.heap; refs = s.refs }))

-- The queue is emptied by the first call; `atomic_inc_int` gives the new value.
abbrev pub fresh_proc : ℕ → Procs → Procs
fresh_proc a s =
    let pid = (s.next_pid + 1) % 2 ^ 32 in
    put_proc a (record (zero_proc a) { pid = pid })
      (record s {
        procq = if s.is_procq_init then s.procq else [];
        is_procq_init = true;
        next_pid = pid;
      })

unfoldable pub proc_init : Platform → ℕ → Bool → Procs → Outcome (Ret (Unit {0}) × Procs)
proc_init pf a ktd s = on_done (md_proc_init pf.kcr3 a ktd (fresh_proc a s)) (with_fdtab pf a)
