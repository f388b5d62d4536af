-- ===== src/Proc/Life/Numbers.antt =====
-- Proofs on `proc_lookup` of src/sys/os/os_proc.c: the numbers of the processes in the queue of all.
use l5lunos.Prelude.{
  ℕ, ◌≤◌, ◌<◌, ◌≡◌, ◌≢◌, refl, ◌∙◌, true, false, Option, none, some, List, [], ◌∷◌, ◌++◌, arith,
  ◌==◌, if◌then◌else◌,
}
use l5lunos.Proc.State.{Process, Procs}
use l5lunos.Proc.Life.{lookup_at, lookup_in}
use l5lunos.Proc.Life.Unique.{pid_of}

-- The numbers along a queue ascend, from above `lo` to at most `hi`.
abbrev pub Ascending : (ℕ → Option Process) → ℕ → List ℕ → ℕ → Type 0
Ascending store lo [] hi = lo ≤ hi
Ascending store lo (b ∷ q) hi =
    (m : ℕ) × (pid_of (store b) ≡ some m) × (lo < m) × Ascending store m q hi

abbrev pub Lacks : ℕ → List ℕ → Type 0
Lacks a [] = Unit
Lacks a (b ∷ q) = (b ≢ a) × Lacks a q

-- The queue is there, and each process in it has a number of its own, in the order of their start.
pub record IsNumbered (s : Procs) : Type 0 where
  pub init : s.is_procq_init ≡ true
  pub ascending : Ascending s.store 0 s.procq s.next_pid

-- The allocator gives no address of a process in the queue.
abbrev pub GrantsFresh : Procs → Type 0
GrantsFresh s = (n sz p : ℕ) → s.heap.grants n sz ≡ some p → Lacks p s.procq

-- The numbers of the processes in a queue, in another store.
pub Ascending-agree :
    (store store' : ℕ → Option Process) (a lo hi : ℕ) (q : List ℕ)
    → Lacks a q
    → ((b : ℕ) → b ≢ a → pid_of (store' b) ≡ pid_of (store b))
    → Ascending store lo q hi
    → Ascending store' lo q hi
Ascending-agree store store' a lo hi [] l e h = h
Ascending-agree store store' a lo hi (b ∷ q) (n, l) e (m, p, u, h) =
    (m, e b n ∙ p, u, Ascending-agree store store' a m hi q l e h)

pub Ascending-snoc :
    (store : ℕ → Option Process) (a m lo hi : ℕ) (q : List ℕ)
    → pid_of (store a) ≡ some m
    → hi < m
    → Ascending store lo q hi
    → Ascending store lo (q ++ a ∷ []) m
Ascending-snoc store a m lo hi [] p u h = (m, p, omega (arith, u, h), omega arith)
Ascending-snoc store a m lo hi (b ∷ q) p u (k, e, l, h) =
    (k, e, l, Ascending-snoc store a m k hi q p u h)

lookup_at-agree :
    (a pid : ℕ) (o o' : Option Process) (r r' : Option ℕ)
    → pid_of o' ≡ pid_of o
    → r' ≡ r
    → lookup_at a pid o' r' ≡ lookup_at a pid o r
lookup_at-agree a pid none none r r' h k = k
lookup_at-agree a pid none (some p) r r' h k = absurd (cc h)
lookup_at-agree a pid (some p) none r r' h k = absurd (cc h)
lookup_at-agree a pid (some p) (some p') r r' h k =
    let same : p'.pid ≡ p.pid = cc h in rw (same, k) refl

pub lookup_in-agree :
    (store store' : ℕ → Option Process) (a pid : ℕ) (q : List ℕ)
    → Lacks a q
    → ((b : ℕ) → b ≢ a → pid_of (store' b) ≡ pid_of (store b))
    → lookup_in store' q pid ≡ lookup_in store q pid
unfolding lookup_in
lookup_in-agree store store' a pid [] l e = refl
lookup_in-agree store store' a pid (b ∷ q) (n, l) e =
    lookup_at-agree b pid (store b) (store' b) (lookup_in store q pid) (lookup_in store' q pid)
      (e b n) (lookup_in-agree store store' a pid q l e)

-- Of a process at the end of the queue.
lookup_at-pid :
    (a pid m : ℕ) (o : Option Process) (r : Option ℕ)
    → pid_of o ≡ some m
    → lookup_at a pid o r ≡ (if m == pid then some a else r)
lookup_at-pid a pid m none r h = absurd (cc h)
lookup_at-pid a pid m (some p) r h = let same : p.pid ≡ m = cc h in rw same refl

pub lookup_in-snoc_other :
    (store : ℕ → Option Process) (a m pid : ℕ) (q : List ℕ)
    → pid_of (store a) ≡ some m
    → pid ≢ m
    → lookup_in store (q ++ a ∷ []) pid ≡ lookup_in store q pid
unfolding lookup_in
lookup_in-snoc_other store a m pid [] h n =
    lookup_at-pid a pid m (store a) none h ∙ ground (arith, n)
lookup_in-snoc_other store a m pid (b ∷ q) h n =
    lookup_at-agree b pid (store b) (store b) (lookup_in store q pid)
      (lookup_in store (q ++ a ∷ []) pid) refl (lookup_in-snoc_other store a m pid q h n)

Ascending-le :
    (store : ℕ → Option Process) (lo hi : ℕ) (q : List ℕ) → Ascending store lo q hi → lo ≤ hi
Ascending-le store lo hi [] h = h
Ascending-le store lo hi (b ∷ q) (m, e, l, h) = omega (arith, l, Ascending-le store m hi q h)

pub Ascending-up :
    (store : ℕ → Option Process) (lo hi hi' : ℕ) (q : List ℕ)
    → hi ≤ hi'
    → Ascending store lo q hi
    → Ascending store lo q hi'
Ascending-up store lo hi hi' [] u h = omega (arith, h, u)
Ascending-up store lo hi hi' (b ∷ q) u (m, e, l, h) = (m, e, l, Ascending-up store m hi hi' q u h)

older :
    (store : ℕ → Option Process) (n hi m : ℕ) (q : List ℕ)
    → hi < m
    → Ascending store n q hi
    → (n == m) ≡ false
older store n hi m q u k = ground (arith, u, Ascending-le store n hi q k)

pub lookup_in-snoc :
    (store : ℕ → Option Process) (a m lo hi : ℕ) (q : List ℕ)
    → pid_of (store a) ≡ some m
    → hi < m
    → Ascending store lo q hi
    → lookup_in store (q ++ a ∷ []) m ≡ some a
unfolding lookup_in
lookup_in-snoc store a m lo hi [] h u k = lookup_at-pid a m m (store a) none h ∙ ground arith
lookup_in-snoc store a m lo hi (b ∷ q) h u (n, e, l, k) =
    lookup_at-pid b m n (store b) (lookup_in store (q ++ a ∷ []) m) e
    ∙ rw (older store n hi m q u k) (lookup_in-snoc store a m n hi q h u k)
