-- ===== src/Tests/System.antt =====
-- The allocation box and the descriptor table on small states.
use l5lunos.Prelude.{
  false, ℕ, ◌+◌, ◌≡◌, refl, arith, if◌then◌else◌, ◌==◌, Option, none, some, [], ◌∷◌, replicate,
  length-replicate, get_elem?,
}
use l5lunos.Prelude.Errno.{Ret, ok}
use l5lunos.Prelude.Int8.{pos}
use l5lunos.Mem.Kalloc.{count}
use l5lunos.Mem.Ptrbox.{Mem, ptrbox_terminate}
use l5lunos.Mem.Ptrbox.Balance.{nodes, blocks, IsBalanced, ptrbox_terminate-live}
use l5lunos.Files.Filedes.{Filedesc, FdTab, Files, fresh_fd, fd_alloc, fd_dup, fd_close}
use l5lunos.Files.Table.{IsValid, Allocates, fd_alloc-Allocates}
use l5lunos.Files.Lookup.{at_slot, fd_close-open}
use l5lunos.Files.Dup.{Dups, fd_dup-Dups}
use l5lunos.Tests.Data.{heap}

-- The heap hands out a block of another user, and a box with one entry.
abbrev one_block : Mem
one_block = record {
  heap = record heap { live = 8192 ∷ 4096 ∷ 64 ∷ [] };
  box = record {
    self = 64;
    count = 0;
    q = (record { node = 4096; block = some 8192; len = 16 }) ∷ [];
  };
}

one_block-IsBalanced : IsBalanced (64 ∷ []) one_block
unfolding count nodes blocks
one_block-IsBalanced = record { each = λ p. ground arith }

ptrbox_terminate-live_example :
    ((p : ℕ)
      → count p (ptrbox_terminate one_block).heap.live ≡ count p (64 ∷ []) + count p (4096 ∷ []))
    × (nodes (ptrbox_terminate one_block).box.q ≡ 4096 ∷ [])
    × (blocks (ptrbox_terminate one_block).box.q ≡ [])
unfolding nodes
ptrbox_terminate-live_example = ptrbox_terminate-live (64 ∷ []) one_block one_block-IsBalanced

-- A table with the descriptors 0 and 1.
abbrev two_open : FdTab
two_open = some (fresh_fd 4096 0) ∷ some (fresh_fd 8192 1) ∷ replicate 254 none

abbrev files : Files
files = record { fdtab = two_open; heap = heap; refs = λ v. 0 }

two_open-IsValid : IsValid two_open
two_open-IsValid = record {
  size = omega (arith, length-replicate {A = Option Filedesc} 254 none);
  numbered = (refl, (refl, tt));
}

fd_alloc-Allocates_example : Allocates files (fd_alloc files)
fd_alloc-Allocates_example = fd_alloc-Allocates files two_open-IsValid

-- A vnode's operation that counts its calls.
abbrev reclaim : Option ℕ → ℕ → Ret (Unit {0}) × ℕ
reclaim vp n = (ok tt, n + 1)

fd_close-open_example :
    let (r, s, n) = fd_close reclaim (pos 1) files 0 in
    (r ≡ ok tt)
    × (n ≡ 1)
    × IsValid s.fdtab
    × ((j : ℕ) → get_elem? s.fdtab j ≡ (if 1 == j then some none else get_elem? two_open j))
unfolding at_slot
fd_close-open_example = fd_close-open reclaim 1 files 0 (fresh_fd 8192 1) two_open-IsValid refl

fd_dup-Dups_example : Dups files (fresh_fd 8192 1) (fd_dup false files (pos 1))
unfolding at_slot
fd_dup-Dups_example = fd_dup-Dups files 1 (fresh_fd 8192 1) two_open-IsValid refl
