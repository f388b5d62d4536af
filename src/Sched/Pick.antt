-- ===== src/Sched/Pick.antt =====
-- Proofs on the ready queue of src/sys/os/os_sched.c.
use l5lunos.Prelude.{
  ◌≡◌, refl, ap, inl, inr, Bool-cases, true, false, Option, none, some, List, [], ◌∷◌, ◌++◌, arith,
  ◌==◌, length, length-append,
}
use l5lunos.Prelude.Errno.{Ret, ok, err, eagain}
use l5lunos.Sched.{Proc, SchedQueue, sched_enq, keep_proc, first_awake, removed, sched_deq}

pub record IsValid (s : SchedQueue) : Type 0 where
  pub count : s.nproc ≡ length s.q

abbrev pub AllSleep : List Proc → Type 0
AllSleep [] = Unit
AllSleep (p ∷ ps) = (p.sleeping ≡ true) × AllSleep ps

-- The search through a queue: all sleep, or the first that does not is taken out.
pub data Picks (ps : List Proc) : Option (Proc × List Proc) → Type 0 where
  all_sleep : AllSleep ps → Picks ps none
  awake :
      (before after : List Proc) (p : Proc)
      → ps ≡ before ++ p ∷ after
      → AllSleep before
      → p.sleeping ≡ false
      → Picks ps (some (p, before ++ after))

keep_proc-Picks :
    (p : Proc) (ps : List Proc) {o : Option (Proc × List Proc)}
    → p.sleeping ≡ true
    → Picks ps o
    → Picks (p ∷ ps) (keep_proc p o)
keep_proc-Picks p ps h (all_sleep k) = all_sleep (h, k)
keep_proc-Picks p ps h (awake before after r e k n) =
    awake (p ∷ before) after r (ap (λ l. p ∷ l) e) (h, k) n

first_awake-Picks : (ps : List Proc) → Picks ps (first_awake ps)
unfolding first_awake
first_awake-Picks [] = all_sleep tt
first_awake-Picks (p ∷ ps) = elim (Bool-cases p.sleeping) [
  | inl e ↦ simp e (keep_proc-Picks p ps e (first_awake-Picks ps))
  | inr e ↦ simp e (awake [] ps p refl tt e)
]

-- What `sched_deq` does: it reports that no process is ready, where all sleep; or it takes out the
-- first process that does not sleep, and leaves the others in their order.
pub data Dequeues (s : SchedQueue) : Ret Proc × SchedQueue → Type 0 where
  idle : AllSleep s.q → Dequeues s (err eagain, s)
  taken :
      (before after : List Proc) (p : Proc) {s' : SchedQueue}
      → s.q ≡ before ++ p ∷ after
      → AllSleep before
      → p.sleeping ≡ false
      → s'.q ≡ before ++ after
      → IsValid s'
      → Dequeues s (ok p, s')

removed-Dequeues :
    (s : SchedQueue) {o : Option (Proc × List Proc)}
    → IsValid s
    → Picks s.q o
    → Dequeues s (removed s o)
removed-Dequeues s v (all_sleep k) = idle k
removed-Dequeues s v (awake before after p e k n) = taken before after p e k n refl (record {
  count =
      omega
        (arith, v.count, ap length e, length-append before (p ∷ after), length-append before after);
})

empty-AllSleep : (ps : List Proc) → length ps ≡ 0 → AllSleep ps
empty-AllSleep [] h = tt
empty-AllSleep (p ∷ ps) h = absurd (omega (arith, h))

-- On a queue whose count is its length, `sched_deq` reports that no process is ready where all
-- sleep, or takes out the first process that does not sleep, leaves the others in their order,
-- and keeps the count right.
pub sched_deq-Dequeues : (s : SchedQueue) → IsValid s → Dequeues s (sched_deq s)
unfolding sched_deq
sched_deq-Dequeues s v = elim (Bool-cases (s.nproc == 0)) [
  | inl e ↦ rw e (idle (empty-AllSleep s.q (ground (arith, v.count))))
  | inr e ↦ rw e (removed-Dequeues s v (first_awake-Picks s.q))
]

first_awake-append :
    (ps : List Proc) (p : Proc)
    → AllSleep ps
    → p.sleeping ≡ false
    → first_awake (ps ++ p ∷ []) ≡ some (p, ps)
unfolding first_awake
first_awake-append [] p k h = simp h
first_awake-append (x ∷ ps) p k h = simp (k.0, first_awake-append ps p k.1 h)

-- On a queue whose processes all sleep, a process that is awake and is put into the queue is the one
-- that the next call takes, and the queue is then as it was before.
pub sched_deq-sched_enq :
    (s : SchedQueue) (p : Proc)
    → AllSleep s.q
    → p.sleeping ≡ false
    → sched_deq (sched_enq s p).1 ≡ (ok p, s)
unfolding sched_deq sched_enq
sched_deq-sched_enq s p k h = simp (first_awake-append s.q p k h) (ground arith)
