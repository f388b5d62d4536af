-- ===== src/Vm/Map/Mmap.antt =====
-- Proofs on `mmap` and `vm_map` of src/sys/vm/vm_map.c.
use l5lunos.Prelude.{
  ℕ, ◌+◌, ◌*◌, ◌^◌, ◌<◌, ◌≡◌, true, none, some, arith, ◌==◌, if◌then◌else◌, get_elem?,
}
use l5lunos.Vm.Frames.{Outcome, done, panicked, pagesize}
use l5lunos.Vm.Frames.Search.{FreeAt}
use l5lunos.Vm.Mmu.{Mmu}
use l5lunos.Vm.Mmu.Translate.{page_of}
use l5lunos.Vm.Mmu.Owned.{Owner, IsTree}
use l5lunos.Vm.Mmu.Refine.{View, view}
use l5lunos.Vm.Map.{Space, ranges_with}
use l5lunos.Vm.Map.Pages.{map_view}
use l5lunos.Vm.Map.Region.{Short}
use l5lunos.Vm.Map.Grants.{Keeps}

-- The view behind `mmap`: `n` pages from `first` on lead to the frames from `idx` on, and the page behind
-- them to none.
abbrev pub mmap_view : ℕ → ℕ → ℕ → ℕ → View → View
mmap_view first n idx prot w p =
    if p == first + n then none else map_view first n (idx * pagesize) prot w p

-- What `mmap` does at `addr`: it panics where no run of `n` frames is free, or fewer than 4 for each page
-- and the page behind, or it returns the address of `n` pages.
pub data Mmaps (own : Owner) (root addr n len prot : ℕ) (s : Space)
    : Outcome (ℕ × Space) → Type 0 where
  no_memory : Short n (4 * n + 4) s.mmu → Mmaps own root addr n len prot s panicked
  mmaps :
      (own' : Owner) (idx : ℕ) {s' : Space}
      → IsTree own' root s'.mmu
      → FreeAt s.mmu.frames.bitmap idx n
      → ((k : ℕ) → k < n → get_elem? s'.mmu.frames.bitmap (idx + k) ≡ some true)
      → Keeps s.mmu s'.mmu
      → ((p : ℕ)
          → p < 2 ^ 36
          → view root s'.mmu.tables p
            ≡ mmap_view (page_of addr) n idx prot (view root s.mmu.tables) p)
      → ((s'.self, s'.heap)
          ≡ ranges_with (record { va = addr; pa = idx * pagesize }) len s.self s.heap)
      → Mmaps own root addr n len prot s (done (addr, s'))

-- A page that is mapped without protection flags leads to no frame.
pub guard_view :
    (first last pa : ℕ) (w : View) (p : ℕ)
    → first ≡ last
    → map_view first 1 pa 0 w p ≡ (if p == last then none else w p)
guard_view first last pa w p e = ground (arith, e)
