-- ===== src/Files/Table.antt =====
-- The well formed descriptor tables of src/sys/os/os_filedes.c, and proofs on `fd_alloc`.
use l5lunos.Prelude.{
  ℕ, zero, suc, ◌+◌, ◌<◌, ◌≡◌, refl, ◌∙◌, inl, inr, Option-cases, Option, none, some, [], ◌∷◌,
  arith, get_elem?, set, length, length-set,
}
use l5lunos.Prelude.Errno.{Ret, ok, err, emfile, einval}
use l5lunos.Mem.Kalloc.{Heap, kalloc}
use l5lunos.Files.Filedes.{
  Filedesc, FdTab, Files, fd_max, sizeof_filedesc, fresh_fd, find_free, fill_slot, fd_alloc,
}

-- Slot by slot from slot `i` on, a descriptor carries the number of its slot.
abbrev pub IsNumbered : ℕ → FdTab → Type 0
IsNumbered i [] = Unit
IsNumbered i (none ∷ t) = IsNumbered (suc i) t
IsNumbered i (some d ∷ t) = (d.fdno ≡ i) × IsNumbered (suc i) t

pub record IsValid (t : FdTab) : Type 0 where
  pub size : length t ≡ fd_max
  pub numbered : IsNumbered 0 t

-- Slot `n` is taken.
abbrev pub Taken : FdTab → ℕ → Type 0
Taken t n = (d : Filedesc) × (get_elem? t n ≡ some (some d))

find_free-some :
    (k i : ℕ) (t : FdTab)
    → find_free k t ≡ some i
    → (j : ℕ) × (i ≡ k + j) × (get_elem? t j ≡ some none) × ((n : ℕ) → n < j → Taken t n)
unfolding find_free
find_free-some k i [] h = cc
find_free-some k i (none ∷ t) h = (0, ground arith, refl, λ n l. absurd (omega arith))
find_free-some k i (some d ∷ t) h =
    let (j, e, f, g) = find_free-some (k + 1) i t h in (suc j, omega arith, f, below g)
  where
    below : {j : ℕ} → ((n : ℕ) → n < j → Taken t n) → (n : ℕ) → n < suc j → Taken (some d ∷ t) n
    below g zero l = (d, refl)
    below g (suc n) l = g n (omega arith)

find_free-none : (k : ℕ) (t : FdTab) → find_free k t ≡ none → (n : ℕ) → n < length t → Taken t n
unfolding find_free
find_free-none k [] h n l = absurd (omega arith)
find_free-none k (none ∷ t) h n l = cc
find_free-none k (some d ∷ t) h zero l = (d, refl)
find_free-none k (some d ∷ t) h (suc n) l = find_free-none (k + 1) t h n (omega arith)

pub IsNumbered-set :
    (k i : ℕ) (t : FdTab) (d : Filedesc)
    → d.fdno ≡ k + i
    → IsNumbered k t
    → IsNumbered k (set t i (some d))
IsNumbered-set k i [] d e v = tt
IsNumbered-set k zero (none ∷ t) d e v = (omega arith, v)
IsNumbered-set k zero (some x ∷ t) d e v = (omega arith, v.1)
IsNumbered-set k (suc i) (none ∷ t) d e v = IsNumbered-set (suc k) i t d (omega arith) v
IsNumbered-set k (suc i) (some x ∷ t) d e v = (v.0, IsNumbered-set (suc k) i t d (omega arith) v.1)

pub IsNumbered-clear : (k i : ℕ) (t : FdTab) → IsNumbered k t → IsNumbered k (set t i none)
IsNumbered-clear k i [] v = tt
IsNumbered-clear k zero (none ∷ t) v = v
IsNumbered-clear k zero (some x ∷ t) v = v.1
IsNumbered-clear k (suc i) (none ∷ t) v = IsNumbered-clear (suc k) i t v
IsNumbered-clear k (suc i) (some x ∷ t) v = (v.0, IsNumbered-clear (suc k) i t v.1)

-- What `fd_alloc` does: it reports a full table, or that `kalloc` has given NULL, and leaves the table
-- alone; or it puts a fresh descriptor, at the address that `kalloc` has given, into the lowest free
-- slot.
pub data Allocates (s : Files) : Ret ℕ × Files → Type 0 where
  full : ((n : ℕ) → n < fd_max → Taken s.fdtab n) → Allocates s (err emfile, s)
  no_memory :
      {s' : Files}
      → s'.fdtab ≡ s.fdtab
      → kalloc sizeof_filedesc s.heap ≡ (none, s'.heap)
      → Allocates s (err einval, s')
  slot :
      (i p : ℕ) {s' : Files}
      → get_elem? s.fdtab i ≡ some none
      → ((n : ℕ) → n < i → Taken s.fdtab n)
      → s'.fdtab ≡ set s.fdtab i (some (fresh_fd p i))
      → IsValid s'.fdtab
      → kalloc sizeof_filedesc s.heap ≡ (some p, s'.heap)
      → Allocates s (ok i, s')

fill_slot-Allocates :
    (i : ℕ) (s : Files) (r : Option ℕ × Heap)
    → IsValid s.fdtab
    → get_elem? s.fdtab i ≡ some none
    → ((n : ℕ) → n < i → Taken s.fdtab n)
    → kalloc sizeof_filedesc s.heap ≡ r
    → Allocates s (fill_slot i s r)
fill_slot-Allocates i s (none, h) v f g e = no_memory refl e
fill_slot-Allocates i s (some p, h) v f g e =
    slot i p f g refl
      (record {
        size = length-set s.fdtab i (some (fresh_fd p i)) ∙ v.size;
        numbered = IsNumbered-set 0 i s.fdtab (fresh_fd p i) (omega arith) v.numbered;
      })
      e

-- On a well formed table, `fd_alloc` fails with EMFILE where every slot is taken, and with EINVAL where
-- `kalloc` gives NULL, and leaves the table alone; otherwise it puts a fresh descriptor, at the address
-- that `kalloc` gives, into the lowest free slot and keeps the table well formed.
pub fd_alloc-Allocates : (s : Files) → IsValid s.fdtab → Allocates s (fd_alloc s)
unfolding fd_alloc
fd_alloc-Allocates s v = elim (Option-cases (find_free 0 s.fdtab)) [
  | inl e ↦ simp e (full (λ n l. find_free-none 0 s.fdtab e n (omega (arith, v.size))))
  | inr (i, e) ↦
      let (j, k, f, g) = find_free-some 0 i s.fdtab e in
      let same : j ≡ i = omega arith in
      simp e (
        fill_slot-Allocates i s (kalloc sizeof_filedesc s.heap) v (rw same at f)
          (λ n l. g n (omega arith)) refl)
]
