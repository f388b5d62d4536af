-- ===== src/Vm/Map/Region.antt =====
-- Proofs on `__vm_map` of src/sys/vm/vm_map.c, where it assigns the frames of a region.
use l5lunos.Prelude.{
  ℕ, ◌+◌, ◌-◌, ◌*◌, ◌/◌, ◌%◌, ◌^◌, ◌≤◌, ◌<◌, ◌≡◌, refl, sym, ap, ◌∙◌, true, false, ◌||◌, some,
  arith, ◌==◌, if◌then◌else◌, get_elem?,
}
use l5lunos.Prelude.Int8.{ℤ, pos}
use l5lunos.Vm.Frames.{Outcome, done, panicked, pagesize}
use l5lunos.Vm.Frames.Bits.{within}
use l5lunos.Vm.Frames.Search.{FreeAt}
use l5lunos.Vm.Mmu.{Mmu, on_done}
use l5lunos.Vm.Mmu.Translate.{page_of}
use l5lunos.Vm.Mmu.Owned.{Owner, IsTree}
use l5lunos.Vm.Mmu.Refine.{view, mapping}
use l5lunos.Vm.Map.{
  MmuMap, Mapped, map_rounds, map_region, align_down, assigned, assign_spec, vm_map_aligned,
}
use l5lunos.Vm.Map.Pages
use l5lunos.Vm.Map.Pages.{MapsRun, ran, map_view, map_pages-MapsRun}
use l5lunos.Vm.Frames.Count.{free_count}
use l5lunos.Vm.Map.Grants.{NoRun, Keeps, Grants, no_run, grants, mmu_alloc-Grants}
use l5lunos.Proc.Ranges.{align_up64}

-- Why a mapping may panic: no run of `n` free frames is in the bitmap, or fewer than `c` frames are free.
pub data Short (n c : ℕ) (m : Mmu) : Type 0 where
  no_run_left : NoRun n m → Short n c m
  few_free : free_count m.frames < c → Short n c m

-- The frames of a region: those that were given, or a run that was free and is in use.
abbrev pub Source : Type 1
Source = ℕ → Mmu → Type 0

abbrev pub Fresh : ℕ → Mmu → Source
Fresh n m pa m' =
    (idx : ℕ) × (pa ≡ idx * pagesize)
    × FreeAt m.frames.bitmap idx n
    × ((k : ℕ) → k < n → get_elem? m'.frames.bitmap (idx + k) ≡ some true)

abbrev pub Given : MmuMap → Source
Given spec pa m' = pa ≡ spec.pa

-- What a mapping of `n` pages does: it panics for the reason `R`, or the pages are mapped to those frames, and no others.
pub data MapsRegion (S : Source) (R : Type 0) (own : Owner) (root n prot : ℕ) (spec : MmuMap)
    (m : Mmu) : Outcome Mapped → Type 0 where
  no_frames : R → MapsRegion S R own root n prot spec m panicked
  region :
      (own' : Owner) (pa : ℕ) {m' : Mmu}
      → S pa m'
      → IsTree own' root m'
      → ((k : ℕ)
          → get_elem? m.frames.bitmap k ≡ some true
          → get_elem? m'.frames.bitmap k ≡ some true)
      → ((p : ℕ)
          → p < 2 ^ 36
          → view root m'.tables p
            ≡ map_view (page_of spec.va) n (align_down pa) prot (view root m.tables) p)
      → free_count m.frames ≤ free_count m'.frames + 4 * n
      → MapsRegion S R own root n prot spec m (done (pos 0, record { va = spec.va; pa = pa }, m'))

MapsRun-MapsRegion :
    (S : Source) (R : Type 0) (own : Owner) (root n prot pa : ℕ) (spec : MmuMap) (m0 m : Mmu)
    {o : Outcome (ℤ × Mmu)}
    → Keeps m0 m
    → ((p : ℕ) → view root m.tables p ≡ view root m0.tables p)
    → ((m' : Mmu) → Keeps m m' → S pa m')
    → free_count m0.frames ≤ free_count m.frames + n
    → (free_count m0.frames < 4 * n → R)
    → MapsRun own root (page_of spec.va) n (align_down pa) prot m o
    → MapsRegion S R own root n prot spec m0
        (on_done o (λ (r, m'). done (r, record { va = spec.va; pa = pa }, m')))
MapsRun-MapsRegion S R own root n prot pa spec m0 m u w s c x (Pages.no_memory g) =
    no_frames (x (omega (arith, c, g)))
MapsRun-MapsRegion S R own root n prot pa spec m0 m u w s c x (ran own' {m'} v k h g) =
    region own' pa (s m' k) v (λ i z. k i (u i z))
      (λ p l.
        h p l
        ∙ ap
            (λ x.
              if within (page_of spec.va) n p
              then mapping prot (align_down pa + (p - page_of spec.va) * pagesize)
              else x)
            (w p))
      (omega (arith, c, g))

-- The loop, on the frames that were assigned to the region.
pub map_region-MapsRegion :
    (S : Source) (R : Type 0) (own : Owner) (cr3 len prot pa : ℕ) (spec : MmuMap) (m0 m : Mmu)
    → (pa == 0) ≡ false
    → len % pagesize ≡ 0
    → 0 < len
    → spec.va + len < 2 ^ 48
    → align_down pa + len ≤ 2 ^ 52
    → IsTree own (cr3 / pagesize % 2 ^ 40) m
    → Keeps m0 m
    → ((p : ℕ)
        → view (cr3 / pagesize % 2 ^ 40) m.tables p ≡ view (cr3 / pagesize % 2 ^ 40) m0.tables p)
    → ((m' : Mmu) → Keeps m m' → S pa m')
    → free_count m0.frames ≤ free_count m.frames + len / pagesize
    → (free_count m0.frames < 4 * (len / pagesize) → R)
    → MapsRegion S R own
        (cr3 / pagesize % 2 ^ 40)
        (len / pagesize)
        prot
        spec
        m0
        (map_region cr3 len prot (record { va = spec.va; pa = pa }, m))
unfolding map_region
map_region-MapsRegion S R own cr3 len prot pa spec m0 m z a l c d v u w s y x =
    let rounds : map_rounds spec.va len ≡ len / pagesize = ground (arith, l, c) in
    let same : page_of (align_down spec.va) ≡ page_of spec.va = omega arith in
    let run =
      map_pages-MapsRun (len / pagesize) own cr3 spec.va (align_down spec.va) (align_down pa) prot m
        v (omega arith) (omega arith) (omega (arith, a, c)) (omega (arith, a, d)) in
    rw (z, rounds)
      (MapsRun-MapsRegion S R own (cr3 / pagesize % 2 ^ 40) (len / pagesize) prot pa spec m0 m u w s
        y x (rw (sym same) run))

-- Behind the allocation of the frames.
assigned-MapsRegion :
    (own : Owner) (cr3 len prot : ℕ) (spec : MmuMap) (m : Mmu)
    → (spec.va == 0) ≡ false
    → len % pagesize ≡ 0
    → 0 < len
    → spec.va + len < 2 ^ 48
    → {o : Outcome (ℕ × Mmu)} → Grants own (cr3 / pagesize % 2 ^ 40) (len / pagesize) m o
    → MapsRegion
        (Fresh (len / pagesize) m)
        (Short (len / pagesize) (4 * (len / pagesize)) m)
        own
        (cr3 / pagesize % 2 ^ 40)
        (len / pagesize)
        prot
        spec
        m
        (on_done (on_done o λ r. done (assigned spec r)) (map_region cr3 len prot))
assigned-MapsRegion own cr3 len prot spec m z a l c (no_run g) = no_frames (no_run_left g)
assigned-MapsRegion own cr3 len prot spec m z a l c
      (grants idx {m1 = m1} tree free above below used keeps same cost) =
    let n : ℕ = len / pagesize in
    let source : (m' : Mmu) → Keeps m1 m' → Fresh n m (idx * pagesize) m' =
      λ m' u. (idx, refl, free, λ k h. u (idx + k) (used k h)) in
    rw z (
      map_region-MapsRegion (Fresh n m) (Short n (4 * n) m) own cr3 len prot (idx * pagesize) spec m
        m1 (ground (arith, above)) a l c (omega (arith, below, a)) tree keeps same source cost
        few_free)

-- Where no frames are given, the region gets frames that were free.
pub vm_map_aligned-Fresh :
    (own : Owner) (cr3 len prot : ℕ) (spec : MmuMap) (m : Mmu)
    → spec.pa ≡ 0
    → (spec.va == 0) ≡ false
    → 0 < len
    → len ≤ 2 ^ 48
    → spec.va + align_up64 len < 2 ^ 48
    → IsTree own (cr3 / pagesize % 2 ^ 40) m
    → let n : ℕ = align_up64 len / pagesize in
      MapsRegion
        (Fresh n m)
        (Short n (4 * n) m)
        own
        (cr3 / pagesize % 2 ^ 40)
        n
        prot
        spec
        m
        (vm_map_aligned cr3 spec len prot m)
unfolding vm_map_aligned assign_spec align_up64
vm_map_aligned-Fresh own cr3 len prot spec m e z l b c v =
    let some_len : (len == 0) ≡ false = ground (arith, l) in
    let test : (spec.pa == 0 || spec.va == 0) ≡ true = ground (arith, e) in
    rw (some_len, test)
      (assigned-MapsRegion own cr3 (align_up64 len) prot spec m z (omega arith)
        (omega (arith, l, b)) c
        (mmu_alloc-Grants own (cr3 / pagesize % 2 ^ 40) (align_up64 len / pagesize) m v
          (omega (arith, l, b))))
