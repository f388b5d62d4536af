-- ===== src/Files/Dup.antt =====
-- Proofs on `fd_dup` of src/sys/os/os_filedes.c.
use l5lunos.Prelude.{
  ℕ, ◌<◌, ◌≡◌, refl, ap, ◌∙◌, false, Option, none, some, arith, get_elem?, set, length-set,
}
use l5lunos.Prelude.Errno.{Ret}
use l5lunos.Prelude.Int8.{pos}
use l5lunos.Mem.Kalloc.{Heap, kalloc}
use l5lunos.Files.Filedes.{
  Filedesc, Files, sizeof_filedesc, fresh_fd, find_free, fill_slot, take_slot, fd_alloc, no_none,
  set_slot, ref_vnode, copy_fd, fd_dup,
}
use l5lunos.Files.Table.{
  IsValid, IsNumbered-set, Taken, Allocates, full, no_memory, slot, fd_alloc-Allocates,
}
use l5lunos.Files.Lookup.{at_slot}
use l5lunos.Files.Io.Open.{set-set, get_elem?-set_slot}
use l5lunos.Files.Io.Seek.{fd_get-open}

fill_slot-refs : (i : ℕ) (s : Files) (r : Option ℕ × Heap) → (fill_slot i s r).1.refs ≡ s.refs
fill_slot-refs i s (none, h) = refl
fill_slot-refs i s (some p, h) = refl

take_slot-refs : (o : Option ℕ) (s : Files) → (take_slot o s).1.refs ≡ s.refs
take_slot-refs none s = refl
take_slot-refs (some i) s = fill_slot-refs i s (kalloc sizeof_filedesc s.heap)

fd_alloc-refs : (s : Files) → (fd_alloc s).1.refs ≡ s.refs
unfolding fd_alloc
fd_alloc-refs s = take_slot-refs (find_free 0 s.fdtab) s

-- A copy of the descriptor `d`, at address `p` in slot `i`; its offset is 0.
abbrev pub copy_of : ℕ → ℕ → Filedesc → Filedesc
copy_of p i d = record (fresh_fd p i) { vp = d.vp; mode = d.mode }

-- What a duplication of `d` does: it gives NULL and leaves the table and the references alone, or
-- it puts a copy into the lowest free slot and counts a reference to the vnode.
pub data Dups (s : Files) (d : Filedesc) : Option (Option ℕ × Files) → Type 0 where
  not_dupped : {s' : Files} → s'.fdtab ≡ s.fdtab → s'.refs ≡ s.refs → Dups s d (some (none, s'))
  dupped :
      (i p : ℕ) {s' : Files}
      → get_elem? s.fdtab i ≡ some none
      → ((n : ℕ) → n < i → Taken s.fdtab n)
      → s'.fdtab ≡ set s.fdtab i (some (copy_of p i d))
      → s'.refs ≡ ref_vnode d.vp s.refs
      → IsValid s'.fdtab
      → Dups s d (some (some i, s'))

copy_fd-Dups :
    (s : Files) (d : Filedesc) {r : Ret ℕ × Files}
    → IsValid s.fdtab
    → Allocates s r
    → r.1.refs ≡ s.refs
    → Dups s d (copy_fd (some d) r)
copy_fd-Dups s d v (full k) e = not_dupped refl refl
copy_fd-Dups s d v (no_memory k q) e = not_dupped k e
copy_fd-Dups s d v (slot i p {s'} f g k v' q) e =
    let c = copy_of p i d in
    let same : set_slot i (λ n. record n { mode = d.mode; vp = d.vp })
          (no_none (get_elem? s'.fdtab i)) s'.fdtab
        ≡ set s.fdtab i (some c) =
      rw (k, get_elem?-set_slot s.fdtab i none (some (fresh_fd p i)) f)
        (set-set s.fdtab i (some (fresh_fd p i)) (some c)) in
    let new : IsValid (set s.fdtab i (some c)) = record {
      size = length-set s.fdtab i (some c) ∙ v.size;
      numbered = IsNumbered-set 0 i s.fdtab c (omega arith) v.numbered;
    } in
    dupped i p f g same (ap (ref_vnode d.vp) e) (rw same new)

-- In a well formed table, on a descriptor that its slot holds, and where the unwritten variable
-- that `fd_dup` tests is not NULL, `fd_dup` gives NULL and leaves the table and the references
-- alone, or puts a copy into the lowest free slot, counts a reference to the vnode, and keeps the
-- table well formed.
pub fd_dup-Dups :
    (s : Files) (n : ℕ) (d : Filedesc)
    → IsValid s.fdtab
    → at_slot s.fdtab (pos n) ≡ some d
    → Dups s d (fd_dup false s (pos n))
unfolding fd_dup
fd_dup-Dups s n d v h =
    rw (fd_get-open s.fdtab n d v h).0
      (copy_fd-Dups s d v (fd_alloc-Allocates s v) (fd_alloc-refs s))
