-- ===== src/Proc/Spawn.antt =====
-- The start and the end of processes: `proc_spawn`, `proc_ktd`, `proc_kill` and the system calls of
-- src/sys/os/os_proc.c, and `md_proc_kill` of src/sys/arch/amd64/os/os_proc.c.
pub mod Lookup
use l5lunos.Prelude.{
  ℕ, ◌+◌, ◌-◌, ◌*◌, ◌/◌, ◌%◌, ◌^◌, Bool, true, false, Option, none, some, List, [], ◌∷◌, ◌++◌, leb,
  ◌==◌, if◌then◌else◌, Bytes, length, get_elem?, replicate,
}
use l5lunos.Prelude.Errno.{Ret, ok, err, fail, einval, eio, enomem, esrch}
use l5lunos.Mem.Kalloc.{Heap, kalloc, kfree}
use l5lunos.Mem.Ptrbox.{Ptrbox, ptrbox_terminate}
use l5lunos.Cred.{Ucred, ucred_init}
use l5lunos.Vm.Frames.{Frames, Outcome, done, fault, panicked, pagesize, vm_free_frame}
use l5lunos.Vm.Mmu.{Mmu, on_done, mmu_free_vas}
use l5lunos.Vm.Map.{Space}
use l5lunos.Proc.Ranges.{VmRange, proc_clear_ranges}
use l5lunos.Proc.Copy.{Memory, copyoutstr, copyout}
use l5lunos.Proc.State.{Penv, Process, Procs, change_proc, space_of, put_space}
use l5lunos.Proc.Elf.{Loading, elf_load}
use l5lunos.Proc.Life.{
  Platform, proc_init, proc_lookup, proc_sleep, proc_wake, sched_core, enq_proc,
}

abbrev pub cred_of : Option Process → Option Ucred
cred_of none = none
cred_of (some p) = some p.cred

abbrev pub cred_at : Option ℕ → Procs → Option Ucred
cred_at none s = none
cred_at (some a) s = cred_of (s.store a)

abbrev pub pid_or_0 : Option Process → ℕ
pid_or_0 none = 0
pid_or_0 (some p) = p.pid

abbrev pub pid_at : ℕ → Procs → ℕ
pid_at a s = pid_or_0 (s.store a)

-- The end of `proc_spawn`: the process is put into the core's queue, and into the queue of all.
abbrev pub enter_proc : ℕ → ℕ → Procs → Procs
enter_proc core a s = let s' = enq_proc core a s in record s' { procq = s'.procq ++ a ∷ [] }

abbrev pub start_user : ℕ → Option Penv → ℕ → ℕ → Procs → Ret Ucred → Outcome (Ret ℕ × Procs)
start_user a envbp rip core s (err e) = done (err e, record s { heap = kfree (some a) s.heap })
start_user a envbp rip core s (ok cred) =
    let s' =
      change_proc a (λ p. record p { envblk = envbp; parent = s.current; cred = cred; rip = rip })
        s in
    done (ok (pid_at a s'), enter_proc core a s')

abbrev pub on_core : ℕ → Option Penv → ℕ → Option ℕ × Procs → Outcome (Ret ℕ × Procs)
on_core a envbp rip (none, s) = panicked
on_core a envbp rip (some core, s) =
    start_user a envbp rip core s (ucred_init (cred_at s.current s) true)

abbrev pub put_loading : Loading → Procs → Procs
put_loading l s = let s' = put_space l.space s in record s' { copies = l.copies ++ s'.copies }

abbrev pub behind_load : ℕ → Option Penv → Procs → Ret ℕ × Loading → Outcome (Ret ℕ × Procs)
behind_load a envbp s (err e, l) =
    let s' = put_loading l s in done (err e, record s' { heap = kfree (some a) s'.heap })
behind_load a envbp s (ok rip, l) = on_core a envbp rip (sched_core (put_loading l s))

abbrev pub cr3_at : ℕ → Procs → ℕ
cr3_at a s = elim (s.store a) [ none ↦ 0 | some p ↦ p.cr3 ]

-- Behind `proc_init`, whose result is not looked at.
abbrev pub load_user :
    Platform → Bytes → Option Penv → ℕ → Ret (Unit {0}) × Procs → Outcome (Ret ℕ × Procs)
load_user pf path envbp a (r, s) =
    on_done (elf_load pf.root path (cr3_at a s) (space_of s)) (behind_load a envbp s)

abbrev pub spawn_at :
    Platform → Bytes → Option Penv → Procs → Option ℕ × Heap → Outcome (Ret ℕ × Procs)
spawn_at pf path envbp s (none, h) = done (err enomem, record s { heap = h })
spawn_at pf path envbp s (some a, h) =
    on_done (proc_init pf a false (record s { heap = h })) (load_user pf path envbp a)

-- The path is not NULL; the result is the number of the new process.
unfoldable pub proc_spawn : Platform → Bytes → Option Penv → Procs → Outcome (Ret ℕ × Procs)
proc_spawn pf path envbp s = spawn_at pf path envbp s (kalloc pf.sizeof_proc s.heap)

abbrev pub start_ktd : ℕ → ℕ → ℕ → Ret (Unit {0}) × Procs → Outcome (Ret ℕ × Procs)
start_ktd a fn core (r, s) =
    done (ok a, enter_proc core a (change_proc a (λ p. record p { rip = fn }) s))

abbrev pub ktd_on : Platform → ℕ → ℕ → Option ℕ × Procs → Outcome (Ret ℕ × Procs)
ktd_on pf a fn (none, s) = done (err eio, record s { heap = kfree (some a) s.heap })
ktd_on pf a fn (some core, s) = on_done (proc_init pf a true s) (start_ktd a fn core)

abbrev pub ktd_at : Platform → ℕ → Procs → Option ℕ × Heap → Outcome (Ret ℕ × Procs)
ktd_at pf fn s (none, h) = done (err enomem, record s { heap = h })
ktd_at pf fn s (some a, h) = ktd_on pf a fn (sched_core (record s { heap = h }))

-- `fn` is the address of the function, 0 for NULL; the result is what is written to `procp_res`.
unfoldable pub proc_ktd : Platform → ℕ → Procs → Outcome (Ret ℕ × Procs)
proc_ktd pf fn s =
    if fn == 0 then done (err einval, s) else ktd_at pf fn s (kalloc pf.sizeof_proc s.heap)

-- The release of the ranges by `md_proc_kill`, a second time.
unfoldable pub free_ranges : List VmRange → Frames → Outcome Frames
free_ranges [] f = done f
free_ranges (r ∷ rs) f = on_done (vm_free_frame r.pa_base (r.len / pagesize) f) (free_ranges rs)

-- The environment: the blocks of the box, and then the block of `argv`, which is one of them. A box
-- that is NULL is a fault.
abbrev pub free_env : Option Penv → Option Ptrbox → Heap → Outcome Heap
free_env none box h = done h
free_env (some e) none h = fault
free_env (some e) (some b) h =
    done (kfree (some e.argv) (ptrbox_terminate (record { heap = h; box = b })).heap)

-- How a kill ends: it returns, or the process that was killed ran, and its core waits for another.
pub data Ended : Type 0 where
  returned : Ret (Unit {0}) → Ended
  idle : Ended

abbrev pub kill_self : Bool → Procs → Ended × Procs
kill_self true s = (idle, record s { current = none })
kill_self false s = (returned (ok tt), s)

-- `root_pid` is the number of `g_rootproc`, which stands for a process that runs where there is none.
abbrev pub self_pid : ℕ → Procs → ℕ
self_pid root_pid s = elim s.current [ none ↦ root_pid | some a ↦ pid_at a s ]

unfoldable pub md_proc_kill : ℕ → ℕ → Process → Procs → Outcome (Ended × Procs)
md_proc_kill root_pid a p s = on_done (free_ranges p.maplist s.mmu.frames) λ f.
    on_done (free_env p.envblk p.envblk_box s.heap) λ h.
      on_done (mmu_free_vas p.cr3 (record (s.mmu) { frames = f })) λ (r, m).
        let s' =
          change_proc a (λ q. record q { envblk = none; cr3 = 0 })
            (record s { mmu = m; heap = h }) in
        done (kill_self (self_pid root_pid s' == p.pid) s')

-- TAILQ_REMOVE
unfoldable pub remove_addr : ℕ → List ℕ → List ℕ
remove_addr a [] = []
remove_addr a (b ∷ q) = let rest = remove_addr a q in if a == b then q else b ∷ rest

abbrev pub wake_parent : Option ℕ → Procs → Procs
wake_parent none s = s
wake_parent (some b) s = (proc_wake b s).1

abbrev pub kill_found : ℕ → ℕ → ℕ → Process → Procs → Outcome (Ended × Procs)
kill_found root_pid a self p s =
    let woken : Procs = elim (s.store self) [ none ↦ s | some q ↦ wake_parent q.parent s ] in
    let s1 = if pid_at self s == p.pid then woken else s in
    let s2 = change_proc a (λ q. record q { exiting = true }) s1 in
    on_done (proc_clear_ranges p.maplist s2.mmu.frames) λ f.
      md_proc_kill root_pid a p
        (record s2 { mmu = record (s2.mmu) { frames = f }; procq = remove_addr a s2.procq })

-- Where no process runs, `self->pid` is a fault.
abbrev pub kill_by : ℕ → ℕ → Option ℕ → Option Process → Procs → Outcome (Ended × Procs)
kill_by root_pid a none p s = fault
kill_by root_pid a (some self) none s = fault
kill_by root_pid a (some self) (some p) s = kill_found root_pid a self p s

-- `status` is not used. The `struct proc` and the descriptors of the ranges stay allocated.
unfoldable pub proc_kill : ℕ → Option ℕ → Procs → Outcome (Ended × Procs)
proc_kill root_pid none s = done (returned (err einval), s)
proc_kill root_pid (some a) s = kill_by root_pid a s.current (s.store a) s

-- `sys_getargv`; the argument is copied to the memory `u`.
abbrev pub arg_copied :
    (ℕ → ℕ) → ℕ → ℕ → Memory → Option (Option Bytes) → Outcome (Ret (Unit {0}) × Memory)
arg_copied stack_end u_buf maxlen u none = done (err einval, u)
arg_copied stack_end u_buf maxlen u (some none) = fault
arg_copied stack_end u_buf maxlen u (some (some text)) =
    done (copyoutstr stack_end true text u_buf maxlen u)

unfoldable pub sys_getargv :
    (ℕ → ℕ) → ℕ → ℕ → ℕ → Option Penv → Memory → Outcome (Ret (Unit {0}) × Memory)
sys_getargv stack_end argno u_buf maxlen none u = done (err eio, u)
sys_getargv stack_end argno u_buf maxlen (some e) u =
    arg_copied stack_end u_buf maxlen u (get_elem? e.args (argno % 2 ^ 16))

abbrev pub slept : Ret (Unit {0}) × Memory → Procs → Ret (Unit {0}) × Memory × Procs
slept (err e, u) s = (err e, u, s)
slept (ok z, u) s = (ok tt, u, (proc_sleep s.current s).1)

abbrev pub status_written : (ℕ → ℕ) → ℕ → Memory → Procs → Ret (Unit {0}) × Memory
status_written stack_end u_status u s =
    let has_self : Bool = elim s.current [ none ↦ false | some a ↦ true ] in
    if u_status == 0 then (ok tt, u) else copyout stack_end has_self (replicate 4 0) u_status 4 u

abbrev pub wait_found : (ℕ → ℕ) → ℕ → Memory → Procs → Option ℕ → Ret (Unit {0}) × Memory × Procs
wait_found stack_end u_status u s none = (err esrch, u, s)
wait_found stack_end u_status u s (some a) = slept (status_written stack_end u_status u s) s

-- `sys_waitpid`: the process that runs is put to sleep once.
unfoldable pub sys_waitpid : (ℕ → ℕ) → ℕ → ℕ → Memory → Procs → Ret (Unit {0}) × Memory × Procs
sys_waitpid stack_end pid u_status u s = wait_found stack_end u_status u s (proc_lookup pid s)
