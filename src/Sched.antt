-- ===== src/Sched.antt =====
-- The scheduler, src/sys/os/os_sched.c: the queue of processes that are ready. Its lock has no
-- counterpart here.
pub mod Pick
pub mod Cores
use l5lunos.Prelude.{
  ℕ, ◌+◌, ◌-◌, Bool, Option, none, some, List, [], ◌∷◌, ◌++◌, ◌==◌, if◌then◌else◌,
}
use l5lunos.Prelude.Errno.{Ret, ok, err, eagain}

-- `struct proc`: its number, and PROC_SLEEPING of its flags.
pub record Proc : Type 0 where
  pub pid : ℕ
  pub sleeping : Bool

-- `struct sched_queue`
pub record SchedQueue : Type 0 where
  pub q : List Proc
  pub nproc : ℕ

unfoldable pub sched_enq : SchedQueue → Proc → Ret (Unit {0}) × SchedQueue
sched_enq s p = (ok tt, record { q = s.q ++ p ∷ []; nproc = s.nproc + 1 })

abbrev pub keep_proc : Proc → Option (Proc × List Proc) → Option (Proc × List Proc)
keep_proc p none = none
keep_proc p (some (r, ps)) = some (r, p ∷ ps)

-- The loop over the processes that sleep, and the queue without the one that it stops at.
unfoldable pub first_awake : List Proc → Option (Proc × List Proc)
first_awake [] = none
first_awake (p ∷ ps) =
    let rest = first_awake ps in if p.sleeping then keep_proc p rest else some (p, ps)

abbrev pub removed : SchedQueue → Option (Proc × List Proc) → Ret Proc × SchedQueue
removed s none = (err eagain, s)
removed s (some (p, ps)) = (ok p, record { q = ps; nproc = s.nproc - 1 })

unfoldable pub sched_deq : SchedQueue → Ret Proc × SchedQueue
sched_deq s = if s.nproc == 0 then (err eagain, s) else removed s (first_awake s.q)
