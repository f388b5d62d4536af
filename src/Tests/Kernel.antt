-- ===== src/Tests/Kernel.antt =====
-- The scheduler, the file calls and the string library on small states.
use l5lunos.Prelude.{
  ℕ, ◌+◌, ◌%◌, ◌^◌, ◌≡◌, ◌≤◌, refl, arith, true, false, Option, none, some, [], ◌∷◌, codes,
  replicate, Bytes,
}
use l5lunos.Prelude.Errno.{Ret, ok}
use l5lunos.Prelude.Int8.{pos}
use l5lunos.Sched.{Proc, SchedQueue, sched_deq}
use l5lunos.Sched.Pick.{Dequeues, sched_deq-Dequeues}
use l5lunos.Sched.Cores.{Cores, cpu_get, cpu_sched, cpu_sched-round}
use l5lunos.Files.Filedes.{FdTab, Files, fresh_fd}
use l5lunos.Files.Table
use l5lunos.Files.Lookup.{at_slot}
use l5lunos.Files.Io.{lseek, fd_open}
use l5lunos.Files.Io.Seek.{lseek-lseek}
use l5lunos.Files.Io.Open.{Opens, fd_open-Opens}
use l5lunos.Tests.Data.{heap}

abbrev asleep : Proc
asleep = record { pid = 1; sleeping = true }

abbrev ready : Proc
ready = record { pid = 2; sleeping = false }

abbrev two_procs : SchedQueue
two_procs = record { q = asleep ∷ ready ∷ []; nproc = 2 }

sched_deq-Dequeues_example : Dequeues two_procs (sched_deq two_procs)
sched_deq-Dequeues_example = sched_deq-Dequeues two_procs (record { count = refl })

abbrev two_cores : Cores
two_cores = record { ncores_up = 2; bsp = 100; corelist = 200 ∷ [] }

cpu_sched-round_example :
    (p : ℕ) × (cpu_get two_cores 0 ≡ some p) × (cpu_sched two_cores 2 ≡ (some p, 1)) × (1 ≤ 2)
cpu_sched-round_example =
    cpu_sched-round two_cores 2
      (record { some_up = omega arith; bound = omega arith; listed = omega arith }) (omega arith)

abbrev one_open : FdTab
one_open = some (record (fresh_fd 4096 0) { vp = some 7 }) ∷ replicate 255 none

abbrev files : Files
files = record { fdtab = one_open; heap = heap; refs = λ v. 0 }

one_open-IsValid : Table.IsValid one_open
one_open-IsValid = record { size = refl; numbered = (refl, tt) }

-- Every vnode has 100 bytes, and every path is vnode 9.
abbrev getattr : Option ℕ → ℕ → Ret ℕ × ℕ
getattr vp n = (ok 100, n + 1)

abbrev lookup : Bytes → ℕ → ℕ → Ret ℕ × ℕ
lookup path flags n = (ok 9, n + 1)

lseek-lseek_example :
    let (r, s, n) = lseek getattr (pos 0) 40 0 files 0 in
    (r ≡ ok (40 % 2 ^ 64))
    × Table.IsValid s.fdtab
    × ((lseek getattr (pos 0) 0 1 s n).0 ≡ ok (40 % 2 ^ 64))
unfolding at_slot
lseek-lseek_example =
    lseek-lseek getattr 0 40 100 files 0 (record (fresh_fd 4096 0) { vp = some 7 }) one_open-IsValid
      refl (λ u. refl)

fd_open-Opens_example :
    let (r, s, n) = fd_open lookup (some (codes "/etc/master")) 2 files 0 in
    Opens (lookup (codes "/etc/master") 0 0).0 files 2 (r, s)
fd_open-Opens_example = fd_open-Opens lookup (codes "/etc/master") 2 files 0 one_open-IsValid
