-- ===== src/Proc/Spawn/Lookup.antt =====
-- Proofs on `proc_spawn` and `proc_lookup` of src/sys/os/os_proc.c.
use l5lunos.Prelude.{
  ℕ, ◌+◌, ◌%◌, ◌^◌, ◌<◌, ◌≡◌, ◌≢◌, refl, ap, ◌∙◌, inl, inr, Bool-cases, true, false, Option, none,
  some, [], ◌∷◌, ◌++◌, arith, ◌==◌, ==-refl, Bytes,
}
use l5lunos.Prelude.Errno.{Errno, Ret, ok, err}
use l5lunos.Mem.Kalloc.{Heap, granted, kalloc}
use l5lunos.Cred.{Ucred, ucred_init}
use l5lunos.Vm.Map.{Space}
use l5lunos.Proc.State.{Penv, Process, Procs, put_proc, put_space}
use l5lunos.Proc.Life.{
  Platform, lookup_in, proc_lookup, fresh_proc, proc_init, sched_core, enq_proc,
}
use l5lunos.Proc.Life.Unique.{
  Returns, on_done-Returns, on_done-Returns_all, pid_of, KeepsPids, Kept, change_proc-KeepsPids,
  put_space-KeepsPids, proc_init-KeepsPids,
}
use l5lunos.Proc.Life.Numbers.{
  Lacks, IsNumbered, GrantsFresh, Ascending-agree, Ascending-snoc, Ascending-up, lookup_in-agree,
  lookup_in-snoc_other, lookup_in-snoc,
}
use l5lunos.Proc.Elf.{Loading}
use l5lunos.Proc.Spawn.{
  pid_or_0, enter_proc, on_core, put_loading, behind_load, load_user, spawn_at, proc_spawn,
}

-- A state in which only the place of the new process has changed, which has the next number.
record Started (a : ℕ) (s s' : Procs) : Type 0 where
  others : (b : ℕ) → b ≢ a → pid_of (s'.store b) ≡ pid_of (s.store b)
  own : pid_of (s'.store a) ≡ some (s.next_pid + 1)
  queue : s'.procq ≡ s.procq
  next : s'.next_pid ≡ s.next_pid + 1
  init : s'.is_procq_init ≡ true

fresh_proc-Started :
    (a : ℕ) (s s' : Procs)
    → s.is_procq_init ≡ true
    → s.next_pid + 1 < 2 ^ 31
    → KeepsPids (fresh_proc a s) s'
    → Started a s s'
unfolding put_proc
fresh_proc-Started a s s' i l k =
    let pid : (s.next_pid + 1) % 2 ^ 32 ≡ s.next_pid + 1 = omega (arith, l) in
    record {
      others = λ b n. let ne : (b == a) ≡ false = ground (arith, n) in k.pids b ∙ rw ne refl;
      own = k.pids a ∙ rw (==-refl a, pid) refl;
      queue = k.queue ∙ rw i refl;
      next = k.next ∙ pid;
      init = k.init;
    }

Started-then : (a : ℕ) (s s1 s2 : Procs) → Started a s s1 → KeepsPids s1 s2 → Started a s s2
Started-then a s s1 s2 f k = record {
  others = λ b n. k.pids b ∙ f.others b n;
  own = k.pids a ∙ f.own;
  queue = k.queue ∙ f.queue;
  next = k.next ∙ f.next;
  init = k.init ∙ f.init;
}

-- What a spawn that returns comes to: it fails, and every number leads to the process that it did; or
-- the next number leads to the new process, and every other
-- number to the process that it did. The processes are numbered in order again.
pub data Spawns (s : Procs) : Ret ℕ × Procs → Type 0 where
  failed :
      (e : Errno) {s' : Procs}
      → ((pid : ℕ) → proc_lookup pid s' ≡ proc_lookup pid s)
      → IsNumbered s'
      → Spawns s (err e, s')
  started :
      (a pid : ℕ) {s' : Procs}
      → pid ≡ s.next_pid + 1
      → proc_lookup pid s' ≡ some a
      → ((pid' : ℕ) → pid' ≢ pid → proc_lookup pid' s' ≡ proc_lookup pid' s)
      → IsNumbered s'
      → Spawns s (ok pid, s')

Started-failed :
    (a : ℕ) (s s' : Procs) (e : Errno)
    → IsNumbered s
    → Lacks a s.procq
    → Started a s s'
    → Spawns s (err e, s')
unfolding proc_lookup
Started-failed a s s' e v l f =
    failed e
      (λ pid.
        ap (λ q. lookup_in s'.store q pid) f.queue
        ∙ lookup_in-agree s.store s'.store a pid s.procq l f.others)
      (record {
        init = f.init;
        ascending =
            rw (f.queue, f.next)
              (Ascending-up s'.store 0 s.next_pid (s.next_pid + 1) s.procq (omega arith)
                (Ascending-agree s.store s'.store a 0 s.next_pid s.procq l f.others v.ascending));
      })

pid_or_0-pid : (o : Option Process) (m : ℕ) → pid_of o ≡ some m → pid_or_0 o ≡ m
pid_or_0-pid none m h = absurd (cc h)
pid_or_0-pid (some p) m h = cc h

Started-entered :
    (a core : ℕ) (s s' : Procs)
    → IsNumbered s
    → Lacks a s.procq
    → Started a s s'
    → Spawns s (ok (pid_or_0 (s'.store a)), enter_proc core a s')
unfolding proc_lookup enq_proc
Started-entered a core s s' v l f =
    let m : ℕ = s.next_pid + 1 in
    let pid = pid_or_0-pid (s'.store a) m f.own in
    let ascends = Ascending-agree s.store s'.store a 0 s.next_pid s.procq l f.others v.ascending in
    rw (pid) (
      started a m refl
        (ap (λ q. lookup_in s'.store (q ++ a ∷ []) m) f.queue
          ∙ lookup_in-snoc s'.store a m 0 s.next_pid s.procq f.own (omega arith) ascends)
        (λ pid' n.
          ap (λ q. lookup_in s'.store (q ++ a ∷ []) pid') f.queue
          ∙ lookup_in-snoc_other s'.store a m pid' s.procq f.own n
          ∙ lookup_in-agree s.store s'.store a pid' s.procq l f.others)
        (record {
          init = f.init;
          ascending =
              rw (f.queue, f.next)
                (Ascending-snoc s'.store a m 0 s.next_pid s.procq f.own (omega arith) ascends);
        }))

-- The steps behind `proc_init`.
on_core-Spawns :
    (a rip : ℕ) (envbp : Option Penv) (s : Procs) (x : Option ℕ × Procs)
    → IsNumbered s
    → Lacks a s.procq
    → Started a s (x.1)
    → Returns (Spawns s) (on_core a envbp rip x)
unfolding ucred_init
on_core-Spawns a rip envbp s (none, s') v l f = tt
on_core-Spawns a rip envbp s (some core, s') v l f =
    let k = λ (cred : Ucred).
      change_proc-KeepsPids a
        (λ p. record p { envblk = envbp; parent = s'.current; cred = cred; rip = rip }) s'
        (λ p. refl) in
    Started-entered a core s _ v l (Started-then a s s' _ f (k _))

put_space-Started :
    (a : ℕ) (s s' : Procs) (sp : Space) → Started a s s' → Started a s (put_space sp s')
put_space-Started a s s' sp f = Started-then a s s' (put_space sp s') f (put_space-KeepsPids sp s')

behind_load-Spawns :
    (a : ℕ) (envbp : Option Penv) (s s' : Procs) (x : Ret ℕ × Loading)
    → IsNumbered s
    → Lacks a s.procq
    → Started a s s'
    → Returns (Spawns s) (behind_load a envbp s' x)
behind_load-Spawns a envbp s s' (err e, x) v l f =
    let g = put_space-Started a s s' x.space f in
    Started-failed a s _ e v l
      (record { others = g.others; own = g.own; queue = g.queue; next = g.next; init = g.init })
behind_load-Spawns a envbp s s' (ok rip, x) v l f =
    let g = put_space-Started a s s' x.space f in
    on_core-Spawns a rip envbp s (sched_core (put_loading x s')) v l
      (record { others = g.others; own = g.own; queue = g.queue; next = g.next; init = g.init })

spawn_at-Spawns :
    (pf : Platform) (path : Bytes) (envbp : Option Penv) (s : Procs) (x : Option ℕ × Heap)
    → IsNumbered s
    → s.next_pid + 1 < 2 ^ 31
    → ((p : ℕ) → x.0 ≡ some p → Lacks p s.procq)
    → Returns (Spawns s) (spawn_at pf path envbp s x)
unfolding proc_lookup
spawn_at-Spawns pf path envbp s (none, h) v l f =
    failed _ (λ pid. refl) (record { init = v.init; ascending = v.ascending })
spawn_at-Spawns pf path envbp s (some a, h) v l f =
    let s1 : Procs = record s { heap = h } in
    on_done-Returns (Kept (fresh_proc a s1)) (Spawns s) (proc_init pf a false s1)
      (load_user pf path envbp a) (proc_init-KeepsPids pf a false s1)
      λ (r, s') k.
        let g = fresh_proc-Started a s1 s' v.init l k in
        let g' : Started a s s' = record {
          others = g.others;
          own = g.own;
          queue = g.queue;
          next = g.next;
          init = g.init;
        } in
        on_done-Returns_all (Spawns s) _ (behind_load a envbp s')
          λ y. behind_load-Spawns a envbp s s' y v (f a refl) g'

granted-Lacks :
    (s : Procs) (n sz p : ℕ)
    → GrantsFresh s
    → (granted (s.heap.grants n sz) s.heap).0 ≡ some p
    → Lacks p s.procq
granted-Lacks s n sz p f = of_grant (s.heap.grants n sz) refl
  where
    of_grant :
        (o : Option ℕ) → s.heap.grants n sz ≡ o → (granted o s.heap).0 ≡ some p → Lacks p s.procq
    of_grant none e h = absurd (cc h)
    of_grant (some q) e h = f n sz p (e ∙ h)

kalloc-Lacks :
    (s : Procs) (sz p : ℕ) → GrantsFresh s → (kalloc sz s.heap).0 ≡ some p → Lacks p s.procq
unfolding kalloc
kalloc-Lacks s sz p f = elim (Bool-cases s.heap.is_init) [
  | inl e ↦ simp e (granted-Lacks s s.heap.calls sz p f)
  | inr e ↦ simp e (λ h. absurd (cc h))
]

-- Where the processes are numbered in order, below 2^31 - 1, and the allocator gives no address of one of
-- them, a proc_spawn that neither panics nor faults fails, and then every number leads to the process
-- that it did; or it returns the next number, which leads to the new process, and every other number
-- leads to the process that it did. The processes are numbered in order again.
pub proc_spawn-Spawns :
    (pf : Platform) (path : Bytes) (envbp : Option Penv) (s : Procs)
    → IsNumbered s
    → GrantsFresh s
    → s.next_pid + 1 < 2 ^ 31
    → Returns (Spawns s) (proc_spawn pf path envbp s)
unfolding proc_spawn
proc_spawn-Spawns pf path envbp s v f l =
    spawn_at-Spawns pf path envbp s (kalloc pf.sizeof_proc s.heap) v l
      (λ p. kalloc-Lacks s pf.sizeof_proc p f)
